-- ===== src/Tests/Format.antt =====
-- Examples for the messages of libpagekite/pkproto.c, with pkproto_test_format_reply() and its kin.
use libpagekite.Base.{
  ℕ, arith, ◌+◌, ◌≤◌, ◌≡◌, refl, Bool, true, none, some, OfSome, codes, crlf, length, ◌++◌, pos,
  minus_one,
}
use libpagekite.Libc.{to_hex}
use libpagekite.Proto.Format.{
  Outgoing, sprintf_s, pk_format_frame, pk_reply_overhead, pk_format_reply, pk_format_eof,
  pk_format_skb, pk_format_pong, pk_format_ping, pk_format_chunk, add_headers, add_str, add_int,
  scratch_text, scratch_size,
}
use libpagekite.Proto.Format.Size.{IsFrame, messages-IsFrame, pk_format_reply-overhead}
use libpagekite.Proto.Format.Bound.{pk_format_chunk-bound}

format_reply_test :
    pk_format_reply (some (codes "12345")) 5 (some (codes "54321"))
    ≡ codes "13\r\nSID: 12345\r\n\r\n54321"
unfolding pk_format_reply pk_format_frame sprintf_s to_hex
format_reply_test = refl

format_eof_test :
    pk_format_eof (some (codes "12345")) 3 ≡ codes "18\r\nSID: 12345\r\nEOF: 1RW\r\n\r\n"
unfolding pk_format_eof pk_format_frame sprintf_s to_hex
format_eof_test = refl

format_pong_test : pk_format_pong ≡ codes "b\r\nNOOP: 1\r\n\r\n"
unfolding pk_format_pong pk_format_frame sprintf_s to_hex
format_pong_test = refl

messages-IsFrame_example :
    IsFrame (pk_format_eof (some (codes "1")) 1) 0
    × IsFrame (pk_format_skb (some (codes "1")) (pos 128)) 0
    × IsFrame pk_format_pong 0
    × IsFrame pk_format_ping 0
messages-IsFrame_example = messages-IsFrame (some (codes "1")) 1 (pos 128)

pk_format_reply-overhead_example :
    length (pk_format_reply (some (codes "1")) 5 (some (codes "54321")))
    ≡ 5 + pk_reply_overhead (codes "1") 5
pk_format_reply-overhead_example = pk_format_reply-overhead (codes "1") (codes "54321")

abbrev hello : Outgoing
hello = record {
  sid = codes "12345";
  eof = none;
  noop = some (codes "1");
  ping = none;
  request_host = some (codes "example.com");
  request_port = pos 80;
  request_proto = some (codes "http");
  remote_ip = none;
  remote_port = minus_one;
  remote_tls = none;
  remote_sent_kb = minus_one;
  quota_days = pos 55;
  quota_conns = minus_one;
  quota_mb = minus_one;
  length = pos 5;
  payload = codes "54321";
}

abbrev plenty : ℕ → Bool
plenty n = true

pk_format_chunk-bound_example :
    let hlen = pk_reply_overhead hello.sid 1024 in
    OfSome (λ out. length out ≤ 1024) (pk_format_chunk plenty 1024 hello)
    × OfSome
        (λ headers. length (headers ++ crlf) + 1 ≤ scratch_size 1024 hlen + 3)
        (add_headers hlen 1024 hello)
    × OfSome (λ tbuf. length tbuf ≤ scratch_size 1024 hlen + 2) (scratch_text hlen 1024 hello)
unfolding pk_reply_overhead
pk_format_chunk-bound_example = pk_format_chunk-bound plenty 1024 hello (omega arith) (record {
  request_port = omega arith;
  remote_port = tt;
  remote_sent_kb = tt;
  quota_days = omega arith;
  quota_conns = tt;
  quota_mb = tt;
})

-- A buffer in which the header fills the scratch buffer but for one byte: the CR LF and the NUL behind the
-- nine bytes of the header end two bytes behind the ten of the scratch buffer.
abbrev only_noop : Outgoing
only_noop = record hello {
  request_host = none;
  request_port = minus_one;
  request_proto = none;
  quota_days = minus_one;
  length = minus_one;
}

overrun_test :
    (pk_reply_overhead (codes "12345") 28 ≡ 18)
    × (scratch_size 28 18 ≡ 10)
    × (add_headers 18 28 only_noop ≡ some (codes "NOOP: 1\r\n"))
unfolding pk_reply_overhead scratch_size add_headers add_str add_int
overrun_test = (refl, refl, refl)
