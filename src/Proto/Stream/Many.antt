-- ===== src/Proto/Stream/Many.antt =====
-- Any number of replies (pk_format_reply() in libpagekite/pkproto.c), each in one read, pass through
-- pk_parser_parse() in order.
use libpagekite.Base.{
  ℕ, ◌^◌, ◌≤◌, ◌<◌, ◌≡◌, ◌≢◌, refl, sym, ap, subst, ◌∙◌, List, [], ◌∷◌, some, Bytes, All, length,
}
use libpagekite.Utils.Lines.Laws.{NoCrlf}
use libpagekite.Proto.Chunk.{Chunk, Parser, pk_parser_reset}
use libpagekite.Proto.Header.{Status}
use libpagekite.Proto.Format.{pk_format_reply}
use libpagekite.Proto.Parser.{pk_parser_parse}
use libpagekite.Proto.Parser.Invariant.{KeepsFrame}
use libpagekite.Proto.Stream.Reply.{Shows, pk_parser_parse-pk_format_reply}

abbrev pub Message : Type 0
Message = Bytes × Bytes

abbrev pub reply_of : Message → Bytes
reply_of (sid, body) = pk_format_reply (some sid) (length body) (some body)

-- A message that a buffer of `room` bytes can take, with a SID that is one line.
abbrev pub FitsIn : ℕ → Message → Type 0
FitsIn room (sid, body) =
    NoCrlf sid
    × All (λ c. c ≢ 0) sid
    × (length (reply_of (sid, body)) < 2 ^ 31)
    × (length (reply_of (sid, body)) ≤ room)

-- The chunks show the messages, in order.
abbrev pub ShowAll : List Message → List Chunk → Type 0
ShowAll [] [] = Unit {0}
ShowAll [] (c ∷ cs) = ⊥
ShowAll (m ∷ ms) [] = ⊥
ShowAll (m ∷ ms) (c ∷ cs) = Shows m.0 m.1 c × ShowAll ms cs

module _ {E : Type 0} (f : E → Chunk → E × Chunk) where
  -- The callback, called with one chunk after the other.
  abbrev pub called : List Chunk → E → E
  called [] env = env
  called (c ∷ cs) env = called cs (f env c).0

  -- One call of the parser for each reply.
  abbrev pub parse_each : List Message → Parser E → Parser E
  parse_each [] p = p
  parse_each (m ∷ ms) p =
      parse_each ms (pk_parser_parse (some f) (length (reply_of m)) (reply_of m) p).1

module _ {E : Type 0} (f : E → Chunk → E × Chunk) (keeps : KeepsFrame (some f)) where
  -- From a parser that was reset and has room for each of the messages: the callback is called once for
  -- each reply, in order, with chunks that show the SID and the data of the messages, and the
  -- parser is reset again, with as much room as before.
  pub parse_each-ShowAll :
      (ms : List Message) (p : Parser E)
      → All (FitsIn (pk_parser_reset p).buffer_bytes_left) ms
      → (cs : List Chunk) × (q : Parser E) × ShowAll ms cs
        × (q.env ≡ called f cs p.env)
        × ((pk_parser_reset q).buffer_bytes_left ≡ (pk_parser_reset p).buffer_bytes_left)
        × (parse_each f ms (pk_parser_reset p) ≡ pk_parser_reset q)
  parse_each-ShowAll [] p h = ([], p, tt, refl, refl, refl)
  parse_each-ShowAll (m ∷ ms) p ((line, text, small, room), h) =
      let (c, q, shows, _, env, free, step) =
        pk_parser_parse-pk_format_reply f keeps m.0 m.1 p line text small room in
      let (cs, q', all, env', free', rest) =
        parse_each-ShowAll ms q (subst (λ r. All (FitsIn r) ms) (sym free) h) in
      (
        c ∷ cs,
        q',
        (shows, all),
        env' ∙ ap (called f cs) env,
        free' ∙ free,
        ap (λ (r : Status × Parser E). parse_each f ms r.1) step ∙ rest,
      )
