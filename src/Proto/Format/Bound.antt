-- ===== src/Proto/Format/Bound.antt =====
-- How much pk_format_chunk() (libpagekite/pkproto.c) writes, to its buffer and to its scratch buffer.
use libpagekite.Base.{
  ℕ, zero, suc, ◌+◌, ◌-◌, ◌*◌, ◌/◌, ◌%◌, ◌^◌, ◌≤◌, ◌<◌, ◌≡◌, refl, inl, inr, Bool, true, false, [],
  ◌∷◌, ◌++◌, Option, none, some, arith, ltb, leb, OfSome, OfSome-bind, OfSome-map, Bytes, codes,
  crlf, Bool-cases, length, length-append, length-take, take, ℤ, pos, negsuc, pos_part,
}
use libpagekite.Libc.{to_hex, to_dec, dec_loop}
use libpagekite.Proto.Format.{
  Outgoing, add_str, add_int, add_headers, add_data, scratch_text, format_into, scratch_size,
  pk_format_chunk, pk_format_frame, pk_reply_overhead, sprintf_s,
}
use libpagekite.Proto.Format.Size.{to_hex_mono, overhead_is}

-- A number below a power of ten has no more digits than the power has zeros.
length-dec_loop :
    (k f n : ℕ) (out : Bytes) → n < 10 ^ suc k → length (dec_loop f n out) ≤ suc k + length out
unfolding dec_loop
length-dec_loop k zero n out h = omega arith
length-dec_loop zero (suc f) n out h =
    let small : ltb n 10 ≡ true = ground arith in rw small (omega arith)
length-dec_loop (suc k) (suc f) n out h = elim (Bool-cases (ltb n 10)) [
  | inl small ↦ rw small (omega arith)
  | inr big ↦
      let p : 10 ^ suc (suc k) ≡ 10 * 10 ^ suc k = omega arith in
      let lt : n / 10 < 10 ^ suc k = omega (arith, p) in
      rw big (omega (arith, length-dec_loop k f (n / 10) ((48 + n % 10) ∷ out) lt))
]

-- A number that prints as ten digits at most, as every int that is not negative does.
abbrev pub TenDigits : ℤ → Type 0
TenDigits (pos n) = n < 10 ^ 10
TenDigits (negsuc n) = Unit {0}

module _ (hlen maxbytes : ℕ) where
  abbrev Room : Bytes → Type 0
  Room t = hlen + length t ≤ maxbytes

  length-field :
      (t h v : Bytes)
      → length (t ++ (h ++ (codes ": " ++ (v ++ crlf)))) ≡ length t + length h + length v + 4
  length-field t h v = omega (
    arith,
    length-append t (h ++ (codes ": " ++ (v ++ crlf))),
    length-append h (codes ": " ++ (v ++ crlf)),
    length-append v crlf,
  )

  add_str-Room :
      (h : Bytes) (v : Option Bytes) (t : Bytes)
      → Room t
      → OfSome Room (add_str hlen maxbytes h v t)
  unfolding add_str
  add_str-Room h none t r = r
  add_str-Room h (some v) t r =
      elim (Bool-cases (leb (hlen + length t + length h + length v + 5) maxbytes)) [
        | inl fits ↦ rw fits (ground (arith, length-field t h v))
        | inr full ↦ rw full tt
      ]

  add_int-Room :
      (h : Bytes) (v : ℤ) (t : Bytes)
      → TenDigits v
      → Room t
      → OfSome Room (add_int hlen maxbytes h v t)
  unfolding add_int
  add_int-Room h (negsuc n) t d r = r
  add_int-Room h (pos n) t d r =
      let natural : ltb n 0 ≡ false = ground arith in
      elim (Bool-cases (leb (hlen + length t + length h + 10 + 5) maxbytes)) [
        | inl fits ↦
            let digits : length (to_dec (pos n)) ≤ 10 =
              unfold to_dec in omega (arith, length-dec_loop 9 (suc n) n [] d) in
            rw (natural, fits) (ground (arith, length-field t h (to_dec (pos n)), digits))
        | inr full ↦ rw (natural, full) tt
      ]

-- The numbers of a chunk: they are ints, and the kilobytes sent are not huge.
pub record NumbersFit (c : Outgoing) : Type 0 where
  pub request_port : TenDigits c.request_port
  pub remote_port : TenDigits c.remote_port
  pub remote_sent_kb : TenDigits c.remote_sent_kb
  pub quota_days : TenDigits c.quota_days
  pub quota_conns : TenDigits c.quota_conns
  pub quota_mb : TenDigits c.quota_mb

module _ (hlen maxbytes : ℕ) (c : Outgoing) where
  add_headers-Room :
      NumbersFit c → hlen ≤ maxbytes → OfSome (Room hlen maxbytes) (add_headers hlen maxbytes c)
  unfolding add_headers
  add_headers-Room n h =
      let room = Room hlen maxbytes in
      let str = add_str-Room hlen maxbytes in
      let int = add_int-Room hlen maxbytes in
      OfSome-bind room room _ _ (str (codes "EOF") c.eof [] (omega arith)) λ b r.
        OfSome-bind room room _ _ (str (codes "NOOP") c.noop b r) λ b r.
          OfSome-bind room room _ _ (str (codes "PING") c.ping b r) λ b r.
            OfSome-bind room room _ _ (str (codes "Host") c.request_host b r) λ b r.
              OfSome-bind room room _ _ (int (codes "Port") c.request_port b n.request_port r)
                λ b r. OfSome-bind room room _ _ (str (codes "Proto") c.request_proto b r) λ b r.
                  OfSome-bind room room _ _ (str (codes "RIP") c.remote_ip b r) λ b r.
                    OfSome-bind room room _ _ (int (codes "RPort") c.remote_port b n.remote_port r)
                      λ b r. OfSome-bind room room _ _ (str (codes "RTLS") c.remote_tls b r) λ b r.
                        OfSome-bind room room _ _
                          (int (codes "SKB") c.remote_sent_kb b n.remote_sent_kb r)
                          λ b r.
                            OfSome-bind room room _ _
                              (int (codes "QDays") c.quota_days b n.quota_days r)
                              λ b r.
                                OfSome-bind room room _ _
                                  (int (codes "QConns") c.quota_conns b n.quota_conns r)
                                  λ b r. int (codes "Quota") c.quota_mb b n.quota_mb r

  abbrev DataRoom : Bytes → Type 0
  DataRoom t = hlen + length t ≤ maxbytes + 2

  add_data-Room : (t : Bytes) → DataRoom t → OfSome DataRoom (add_data hlen maxbytes c t)
  unfolding add_data
  add_data-Room t r = ground (
    arith,
    length-append t (take (pos_part c.length) c.payload),
    length-take (pos_part c.length) c.payload,
  )

  -- The text in the scratch buffer.
  scratch_text-DataRoom :
      NumbersFit c → hlen ≤ maxbytes → OfSome DataRoom (scratch_text hlen maxbytes c)
  unfolding scratch_text
  scratch_text-DataRoom n le =
      OfSome-bind (Room hlen maxbytes) DataRoom _ _ (add_headers-Room n le)
        λ h r. add_data-Room (h ++ crlf) (omega (arith, length-append h crlf, r))

  -- What format_into() writes is no longer than the room, with the overhead of that room.
  format_into-bound :
      hlen ≡ pk_reply_overhead c.sid maxbytes
      → hlen ≤ maxbytes
      → NumbersFit c
      → OfSome (λ out. length out ≤ maxbytes) (format_into hlen maxbytes c)
  unfolding format_into
  format_into-bound is le n =
      OfSome-bind DataRoom (λ out. length out ≤ maxbytes) _ _ (scratch_text-DataRoom n le)
        λ t r'. omega (
          arith,
          r',
          is,
          overhead_is c.sid maxbytes,
          length-frame t,
          to_hex_mono (length c.sid + 7 + length t) (maxbytes + (length c.sid + 9))
              (omega (arith, r')),
        )
    where
      length-frame :
          (t : Bytes)
          → length (pk_format_frame (some c.sid) (codes "SID: %s\r\n") (length t) ++ t)
            ≡ length (to_hex (length c.sid + 7 + length t)) + 2 + (length c.sid + 7) + length t
      length-frame t =
          let n : length c.sid + 9 - 2 + length t ≡ length c.sid + 7 + length t = omega arith in
          let text : Bytes = codes "SID: " ++ (c.sid ++ crlf) in
          unfold pk_format_frame sprintf_s in
          rw n (
            omega (
              arith,
              length-append (to_hex (length c.sid + 7 + length t) ++ (crlf ++ text)) t,
              length-append (to_hex (length c.sid + 7 + length t)) (crlf ++ text),
              length-append c.sid crlf,
            ))

-- When the overhead of an empty message fits `maxbytes`, and the numbers print as ten digits at most: what
-- pk_format_chunk() writes to its buffer is no longer than `maxbytes`, for any malloc(); in the scratch
-- buffer the headers with the last CR LF and the NUL that sprintf() adds end at most three bytes behind
-- its end, and the text with the data at most two.
pub pk_format_chunk-bound :
    (malloc : ℕ → Bool) (maxbytes : ℕ) (c : Outgoing)
    → let hlen = pk_reply_overhead c.sid maxbytes in
      hlen ≤ maxbytes
      → NumbersFit c
      → OfSome (λ out. length out ≤ maxbytes) (pk_format_chunk malloc maxbytes c)
        × OfSome
            (λ headers. length (headers ++ crlf) + 1 ≤ scratch_size maxbytes hlen + 3)
            (add_headers hlen maxbytes c)
        × OfSome
            (λ tbuf. length tbuf ≤ scratch_size maxbytes hlen + 2)
            (scratch_text hlen maxbytes c)
unfolding pk_format_chunk
pk_format_chunk-bound malloc maxbytes c le n = (
  elim (Bool-cases (malloc (scratch_size maxbytes hlen))) [
    | inl some_memory ↦ rw some_memory (format_into-bound hlen maxbytes c refl le n)
    | inr no_memory ↦ rw no_memory tt
  ],
  OfSome-map (Room hlen maxbytes) _ (add_headers hlen maxbytes c)
      (λ h r. omega (arith, length-append h crlf, r, size)) (add_headers-Room hlen maxbytes c n le),
  OfSome-map (DataRoom hlen maxbytes c) _ (scratch_text hlen maxbytes c)
      (λ t r. omega (arith, r, size)) (scratch_text-DataRoom hlen maxbytes c n le),
)
  where
    hlen : ℕ
    hlen = pk_reply_overhead c.sid maxbytes

    size : scratch_size maxbytes hlen ≡ maxbytes - hlen
    size = unfold scratch_size in ground arith
