-- ===== src/Utils/Search.antt =====
-- libpagekite/pkutils.c: strcaseindex(), a binary search in a list of strings. The strings are C strings
-- without their NUL.
pub mod Laws
use Prim.Native.Nat.{compare, Ordering}
use libpagekite.Base.{
  ℕ, zero, suc, ◌+◌, ◌/◌, Bool, true, false, List, [], ◌∷◌, ltb, if◌then◌else◌, Bytes, tolower,
  length, get_or,
}

-- The sign of what strcasecmp() returns.
unfoldable pub strcasecmp : Bytes → Bytes → Ordering
strcasecmp [] [] = Ordering.eq
strcasecmp [] (b ∷ t) = Ordering.lt
strcasecmp (a ∷ s) [] = Ordering.gt
strcasecmp (a ∷ s) (b ∷ t) = elim (compare (tolower a) (tolower b)) [
  | Ordering.lt ↦ Ordering.lt
  | Ordering.eq ↦ strcasecmp s t
  | Ordering.gt ↦ Ordering.gt
]

-- The needle, compared with an entry.
abbrev pub compared : List Bytes → Bytes → ℕ → Ordering
compared haystack needle i = strcasecmp needle (get_or haystack i [])

-- The while loop: `top` comes nearer to `bottom` in each round.
unfoldable pub search_loop : List Bytes → Bytes → ℕ → ℕ → ℕ → ℕ
search_loop haystack needle zero bottom top = bottom
search_loop haystack needle (suc fuel) bottom top =
    let midp = (bottom + top) / 2 in
    let upper = search_loop haystack needle fuel midp top in
    let lower = search_loop haystack needle fuel bottom midp in
    if ltb bottom top
    then elim (compared haystack needle midp) [
      | Ordering.gt ↦ if ltb bottom midp then upper else midp + 1
      | Ordering.lt ↦ if ltb midp top then lower else midp
      | Ordering.eq ↦ midp
    ]
    else bottom

unfoldable pub strcaseindex : List Bytes → Bytes → ℕ
strcaseindex haystack needle =
    search_loop haystack needle (suc (length haystack)) 0 (length haystack)
