-- ===== src/Manager/Kites.antt =====
-- pkm_find_kite() and pkm_parse_eof() (libpagekite/pkmanager.c).
use Prim.Native.Nat.{bit_and}
use libpagekite.Base.{
  ℕ, ◌≡◌, refl, sym, ap, ◌∙◌, inl, inr, Bool, not, ◌&&◌, List, [], ◌∷◌, ◌++◌, Option, none, some,
  ◌==◌, if◌then◌else◌, Bytes, codes, crlf, Bool-cases, ℤ,
}
use libpagekite.Libc.{to_hex}
use libpagekite.Conn.{Conn, set_status}
use libpagekite.Proto.Format.{pk_format_eof, pk_format_frame, sprintf_s}
use libpagekite.Proto.Kite.{Kite}
use libpagekite.Manager.{
  serves, any_port, eqb_ℤ, find_kite, pkm_find_kite, eof_flags, eof_kind, pkm_parse_eof,
  conn_status_end_read, conn_status_end_write,
}

module _ {A : Type 0} where
  abbrev pub or_else : Option A → Option A → Option A
  or_else none b = b
  or_else (some a) b = some a

  abbrev pub first_of : (A → Bool) → List A → Option A
  first_of p [] = none
  first_of p (x ∷ xs) = if p x then some x else first_of p xs

  abbrev pub last_of : (A → Bool) → List A → Option A
  last_of p [] = none
  last_of p (x ∷ xs) = or_else (last_of p xs) (if p x then some x else none)

  or_else-none : (x y : Option A) → or_else (or_else x none) y ≡ or_else x y
  or_else-none none y = refl
  or_else-none (some a) y = refl

  or_else-some : (x y : Option A) (a : A) → or_else (or_else x (some a)) y ≡ or_else x (some a)
  or_else-some none y a = refl
  or_else-some (some b) y a = refl

module _ (protocol domain : Bytes) (port : ℤ) where
  -- The kite has a port of its own, and it is the one asked for.
  abbrev pub exact : Kite → Bool
  exact k = serves protocol domain k && (not (any_port k) && eqb_ℤ k.public_port port)

  abbrev pub catch_all : Kite → Bool
  catch_all k = serves protocol domain k && any_port k

  find_kite_lem :
      (found : Option Kite) (kites : List Kite)
      → find_kite protocol domain port found kites
        ≡ or_else (first_of exact kites) (or_else (last_of catch_all kites) found)
  unfolding find_kite
  find_kite_lem found [] = refl
  find_kite_lem found (k ∷ kites) =
      let skip =
        find_kite_lem found kites
        ∙ ap (or_else (first_of exact kites))
            (sym (or_else-none (last_of catch_all kites) found)) in
      elim (Bool-cases (serves protocol domain k)) [
        | inr no_match ↦ rw no_match skip
        | inl is_match ↦ elim (Bool-cases (any_port k)) [
          | inl any ↦
              rw (is_match, any)
                (find_kite_lem (some k) kites
                  ∙ ap (or_else (first_of exact kites))
                      (sym (or_else-some (last_of catch_all kites) found k)))
          | inr own ↦ elim (Bool-cases (eqb_ℤ k.public_port port)) [
            | inl same ↦ rw (is_match, own, same) refl
            | inr differs ↦ rw (is_match, own, differs) skip
          ]
        ]
      ]

  -- pkm_find_kite() finds the first kite for the protocol, the domain and the very port, and only if
  -- there is none the last kite for that protocol and domain that takes any port.
  pub pkm_find_kite-first_of :
      (kites : List Kite)
      → pkm_find_kite kites protocol domain port
        ≡ or_else (first_of exact kites) (last_of catch_all kites)
  unfolding pkm_find_kite
  pkm_find_kite-first_of kites =
      find_kite_lem none kites
      ∙ ap (or_else (first_of exact kites)) (none_last (last_of catch_all kites))
    where
      none_last : (x : Option Kite) → or_else x none ≡ x
      none_last none = refl
      none_last (some k) = refl

-- pk_format_eof() writes a frame with an EOF header behind the SID. From the value of that header
-- pkm_parse_eof() sees which directions were closed, and ends the other end's: reading ends writing and the
-- other way round; and both end, where both or neither were named.
pub pkm_parse_eof-pk_format_eof :
    (how : ℕ) (sid : Bytes) (c : Conn)
    → let read = not (bit_and how 1 == 0) in
      let write = not (bit_and how 2 == 0) in
      (n : ℕ) × (value : Bytes) × (pk_format_eof (some sid) how
        ≡ to_hex n
          ++ (crlf
              ++ (codes "SID: " ++ (sid ++ (codes "\r\nEOF: " ++ (value ++ codes "\r\n\r\n"))))))
      × (pkm_parse_eof value c ≡ (
          if read && not write
          then set_status conn_status_end_write c
          else if write && not read
          then set_status conn_status_end_read c
          else set_status conn_status_end_write (set_status conn_status_end_read c)))
unfolding pkm_parse_eof eof_kind eof_flags pk_format_eof pk_format_frame sprintf_s
pkm_parse_eof-pk_format_eof how sid c = elim (Bool-cases (bit_and how 1 == 0)) [
  | inl no_read ↦ elim (Bool-cases (bit_and how 2 == 0)) [
    | inl no_write ↦ rw (no_read, no_write) (_, codes "1", refl, refl)
    | inr write ↦ rw (no_read, write) (_, codes "1W", refl, refl)
  ]
  | inr read ↦ elim (Bool-cases (bit_and how 2 == 0)) [
    | inl no_write ↦ rw (read, no_write) (_, codes "1R", refl, refl)
    | inr write ↦ rw (read, write) (_, codes "1RW", refl, refl)
  ]
]
