-- ===== src/Tests/Utils.antt =====
-- Examples for libpagekite/pkutils.c, with the tests of strcaseindex() and printable_binary() in utils_test().
use libpagekite.Base.{
  ◌⊎◌, zero, suc, arith, ◌+◌, ◌≤◌, ◌<◌, ◌≡◌, refl, List, [], ◌∷◌, ◌++◌, Bytes, codes, length, take,
  tolower,
}
use libpagekite.Libc.{hex_digit}
use libpagekite.Utils.Search.{strcasecmp, search_loop, strcaseindex}
use libpagekite.Utils.Search.Laws.{IsSorted, IsPlace, strcaseindex-IsPlace}
use libpagekite.Utils.Printable.{isgraph, escaped, printable_binary}
use libpagekite.Utils.Printable.Laws.{escape, Printable, printable_binary-fits}

abbrev haystack : List Bytes
haystack = codes "a" ∷ codes "bb" ∷ codes "CC" ∷ []

haystack-IsSorted : IsSorted haystack
unfolding strcasecmp tolower
haystack-IsSorted zero (suc zero) lt within = refl
haystack-IsSorted zero (suc (suc zero)) lt within = refl
haystack-IsSorted (suc zero) (suc (suc zero)) lt within = refl
haystack-IsSorted zero zero lt within = absurd (ground arith)
haystack-IsSorted zero (suc (suc (suc j))) lt within = absurd (ground arith)
haystack-IsSorted (suc zero) zero lt within = absurd (ground arith)
haystack-IsSorted (suc zero) (suc zero) lt within = absurd (ground arith)
haystack-IsSorted (suc zero) (suc (suc (suc j))) lt within = absurd (ground arith)
haystack-IsSorted (suc (suc i)) j lt within = absurd (ground arith)

strcaseindex_test :
    (strcaseindex haystack (codes "a") ≡ 0)
    × (strcaseindex haystack (codes "BB") ≡ 1)
    × (strcaseindex haystack (codes "cC") ≡ 2)
    × (strcaseindex haystack (codes "E") ≡ 3)
unfolding strcaseindex search_loop strcasecmp tolower
strcaseindex_test = (refl, refl, refl, refl)

strcaseindex-IsPlace_example : IsPlace haystack (codes "BB") (strcaseindex haystack (codes "BB"))
strcaseindex-IsPlace_example = strcaseindex-IsPlace haystack (codes "BB") haystack-IsSorted

abbrev binary : Bytes
binary = codes "bin\r\n" ++ 0 ∷ []

printable_binary_test :
    (printable_binary 7 binary ≡ (codes "bin" ++ 0 ∷ [], 3))
    × (printable_binary 8 binary ≡ (codes "bin\\x0d" ++ 0 ∷ [], 4))
    × (printable_binary 60 binary ≡ (codes "bin\\x0d\\x0a\\0" ++ 0 ∷ [], 6))
unfolding printable_binary escaped isgraph hex_digit
printable_binary_test = (refl, refl, refl)

printable_binary-fits_example :
    let r = printable_binary 8 binary in
    (length r.0 ≤ 8)
    × (r.0 ≡ escape (take r.1 binary) ++ 0 ∷ [])
    × Printable (escape (take r.1 binary))
    × (r.1 ≤ length binary)
    × ((r.1 ≡ length binary) ⊎ (8 < length (escape (take (r.1 + 1) binary)) + 1))
printable_binary-fits_example =
    printable_binary-fits 8 binary (omega arith)
      (omega arith, (omega arith, (omega arith, (omega arith, (omega arith, (omega arith, tt))))))
