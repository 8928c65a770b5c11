-- ===== src/Proto/Format/Size.antt =====
-- The sizes of what pk_format_frame() and its callers write (libpagekite/pkproto.c).
use libpagekite.Base.{
  ℕ, zero, suc, ◌+◌, ◌-◌, ◌/◌, ◌%◌, ◌≤◌, ◌<◌, ◌≡◌, refl, sym, ap, ◌∙◌, inl, inr, true, false, [],
  ◌∷◌, ◌++◌, append_assoc, Option, some, arith, ltb, Bytes, codes, crlf, Bool-cases, length,
  length-append, take, take-length_append, append-nil, ℤ,
}
use libpagekite.Libc.{to_hex, hex_loop, hex_digit, to_dec}
use libpagekite.Proto.Format.{
  sprintf_s, sid_or_empty, pk_format_frame, overhead_loop, pk_reply_overhead, pk_format_reply,
  eof_letters, pk_format_eof, pk_format_skb, pk_format_pong, pk_format_ping,
}

length-hex_loop :
    (fuel n hexlen : ℕ) (out : Bytes)
    → n < fuel
    → length (hex_loop fuel n out) + hexlen ≡ overhead_loop fuel hexlen n + length out
unfolding hex_loop overhead_loop
length-hex_loop zero n hexlen out h = elim h [ ]
length-hex_loop (suc fuel) n hexlen out h = elim (Bool-cases (ltb n 16)) [
  | inl one ↦ let last : ltb 0 (n / 16) ≡ false = ground arith in rw (one, last) (omega arith)
  | inr more ↦
      let again : ltb 0 (n / 16) ≡ true = ground arith in
      rw (more, again)
        (omega (
          arith,
          length-hex_loop fuel (n / 16) (hexlen + 1) (hex_digit (n % 16) ∷ out) (ground arith),
        ))
]

-- pk_reply_overhead() counts the digits that sprintf() writes.
pub length-to_hex : (n : ℕ) → length (to_hex n) ≡ overhead_loop (suc n) 0 n
unfolding to_hex
length-to_hex n = omega (arith, length-hex_loop (suc n) n 0 [] (omega arith))

pub overhead_is :
    (sid : Bytes) (n : ℕ)
    → pk_reply_overhead sid n ≡ length (to_hex (n + (length sid + 9))) + 2 + (length sid + 9)
unfolding pk_reply_overhead
overhead_is sid n =
    let e : n + (5 + length sid + 4) ≡ n + (length sid + 9) = omega arith in
    omega (arith, length-to_hex (n + (length sid + 9)), ap (λ k. overhead_loop (suc k) 0 k) e)

-- A larger number has no fewer digits.
hex_loop_mono :
    (f n m : ℕ) (out out' : Bytes)
    → n ≤ m
    → m < f
    → length out ≤ length out'
    → length (hex_loop f n out) ≤ length (hex_loop f m out')
unfolding hex_loop
hex_loop_mono zero n m out out' le h le' = elim h [ ]
hex_loop_mono (suc f) n m out out' le h le' = elim (Bool-cases (ltb n 16)) [
  | inl small ↦ elim (Bool-cases (ltb m 16)) [
    | inl small' ↦ rw (small, small') (omega arith)
    | inr big' ↦
        rw (small, big') (omega (arith, hex_loop-grows f (m / 16) (hex_digit (m % 16) ∷ out')))
  ]
  | inr big ↦
      let big' : ltb m 16 ≡ false = ground arith in
      rw (big, big')
        (hex_loop_mono f (n / 16) (m / 16) (hex_digit (n % 16) ∷ out) (hex_digit (m % 16) ∷ out')
          (omega arith) (ground arith) (omega arith))
]
  where
    hex_loop-grows : (f n : ℕ) (out : Bytes) → length out ≤ length (hex_loop f n out)
    hex_loop-grows zero n out = omega arith
    hex_loop-grows (suc f) n out = elim (Bool-cases (ltb n 16)) [
      | inl small ↦ rw small (omega arith)
      | inr big ↦ rw big (omega (arith, hex_loop-grows f (n / 16) (hex_digit (n % 16) ∷ out)))
    ]

-- The digits do not depend on the fuel.
hex_loop-fuel : (f f' n : ℕ) (out : Bytes) → n < f → n < f' → hex_loop f n out ≡ hex_loop f' n out
unfolding hex_loop
hex_loop-fuel zero f' n out h h' = elim h [ ]
hex_loop-fuel (suc f) zero n out h h' = elim h' [ ]
hex_loop-fuel (suc f) (suc f') n out h h' = elim (Bool-cases (ltb n 16)) [
  | inl small ↦ rw small
  | inr big ↦
      rw big (hex_loop-fuel f f' (n / 16) (hex_digit (n % 16) ∷ out) (ground arith) (ground arith))
]

pub to_hex_mono : (n m : ℕ) → n ≤ m → length (to_hex n) ≤ length (to_hex m)
unfolding to_hex
to_hex_mono n m le =
    rw (hex_loop-fuel (suc n) (suc m) n [] (omega arith) (omega arith))
      (hex_loop_mono (suc m) n m [] [] le (omega arith) (omega arith))

-- The message behind the length is as long as the frame header says.
abbrev pub IsFrame : Bytes → ℕ → Type 0
IsFrame out more = (payload : Bytes) × (out ≡ to_hex (length payload + more) ++ (crlf ++ payload))

module _ (s : Option Bytes) where
  -- The formats in use: a %s behind some text.
  pub framed :
      (before after : Bytes) (more : ℕ)
      → sprintf_s (before ++ (codes "%s" ++ after)) (sid_or_empty s)
        ≡ before ++ (sid_or_empty s ++ after)
      → IsFrame (pk_format_frame s (before ++ (codes "%s" ++ after)) more) more
  unfolding pk_format_frame
  framed before after more e =
      let arg = sid_or_empty s in
      let n : length arg + length (before ++ (codes "%s" ++ after)) - 2
          ≡ length (before ++ (arg ++ after)) =
        omega (
          arith,
          length-append before (codes "%s" ++ after),
          length-append before (arg ++ after),
          length-append arg after,
        ) in
      (before ++ (arg ++ after), rw (n, e))

module _ (s : Option Bytes) where
  framed_empty :
      (before after : Bytes) (more : ℕ)
      → sprintf_s (before ++ (codes "%s" ++ after)) [] ≡ before ++ after
      → IsFrame (pk_format_frame (some []) (before ++ (codes "%s" ++ after)) more) more
  framed_empty = framed (some [])

  -- Each message that ends with its header is one frame: its length in hexadecimal digits, CR LF, and
  -- as many bytes as that length says.
  pub messages-IsFrame :
      (how : ℕ) (kilobytes : ℤ)
      → IsFrame (pk_format_eof s how) 0
        × IsFrame (pk_format_skb s kilobytes) 0
        × IsFrame pk_format_pong 0
        × IsFrame pk_format_ping 0
  unfolding pk_format_eof pk_format_skb pk_format_pong pk_format_ping sprintf_s
  messages-IsFrame how kilobytes = (
    framed s (codes "SID: ") (codes "\r\nEOF: 1" ++ (eof_letters how ++ codes "\r\n\r\n")) 0 refl,
    framed s (codes "NOOP: 1\r\nSID: ")
        (codes "\r\nSKB: " ++ (to_dec kilobytes ++ codes "\r\n\r\n")) 0 refl,
    framed_empty (codes "NOOP: 1") (codes "\r\n\r\n") 0 refl,
    framed_empty (codes "NOOP: 1") (codes "\r\nPING: 1\r\n\r\n") 0 refl,
  )

-- A reply's frame, written out.
pub pk_format_reply-is :
    (sid body : Bytes)
    → pk_format_reply (some sid) (length body) (some body)
      ≡ to_hex (length sid + 9 + length body)
        ++ (crlf ++ ((codes "SID: " ++ (sid ++ crlf)) ++ (crlf ++ body)))
unfolding pk_format_reply pk_format_frame sprintf_s
pk_format_reply-is sid body =
    let n : length sid + 11 - 2 + length body ≡ length sid + 9 + length body = omega arith in
    let all : take (length body) body ≡ body =
      ap (take (length body)) (sym (append-nil body)) ∙ take-length_append body [] in
    rw (n, all) (simp (append_assoc) refl)

-- A reply is as long as its data and what pk_reply_overhead() says.
pub pk_format_reply-overhead :
    (sid body : Bytes)
    → length (pk_format_reply (some sid) (length body) (some body))
      ≡ length body + pk_reply_overhead sid (length body)
pk_format_reply-overhead sid body =
    let behind : Bytes = (codes "SID: " ++ (sid ++ crlf)) ++ (crlf ++ body) in
    let count : length sid + 9 + length body ≡ length body + (length sid + 9) = omega arith in
    omega (
      arith,
      ap length (pk_format_reply-is sid body),
      ap (λ k. length (to_hex k)) count,
      overhead_is sid (length body),
      length-append (to_hex (length sid + 9 + length body)) (crlf ++ behind),
      length-append (codes "SID: " ++ (sid ++ crlf)) (crlf ++ body),
      length-append sid crlf,
    )
