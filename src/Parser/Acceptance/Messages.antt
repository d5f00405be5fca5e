-- ===== src/Parser/Acceptance/Messages.antt =====
-- What `parseMessage` of parser.go has checked when no error was recorded.
use edifact_parser.Base.{
  get_or, ℕ, zero, suc, ◌&&◌, Option, none, some, [], ◌≡◌, ◌≢◌, inl, inr, Bytes, length, bytes_eq,
  Bool-cases, if_ind, ◌>>=◌, ltb,
}
use edifact_parser.Token.{is_eof_type}
use edifact_parser.Parser.State.{
  empty_message_type, empty_message_reference, Parser, Segment, ParsedMessage, is_segment_tag,
  invalid_unh, expected_unt,
}
use edifact_parser.Parser.Segments.{read_segment}
use edifact_parser.Parser.Messages.{
  segment_tag_loc, loc_subscription_position, segment_tag_unt, unh_min_data_elements,
  append_segment, unh_header, note_subscription, body_loop, unt_trailer, parse_message,
}
use edifact_parser.Parser.Acceptance.{
  Post, Post-map, Post-before, Post-some, Post-none, Post-bind, add_error-ne-nil, require-errors,
  read_segment-Post,
}

-- The two texts that the domain model wants.
pub record IsNamed (m : ParsedMessage) : Type 0 where
  pub has_type : m.message_type ≢ []
  pub has_reference : m.message_reference ≢ []

abbrev pub IsNamed? : Option ParsedMessage → Type 0
IsNamed? none = ⊥
IsNamed? (some m) = IsNamed m

IsNamed-append_segment :
    (t : Bytes) (seg : Segment) {m : ParsedMessage} → IsNamed m → IsNamed (append_segment t seg m)
IsNamed-append_segment t seg h = record { has_type = h.has_type; has_reference = h.has_reference }

IsNamed-note_subscription :
    (seg : Segment) (m : ParsedMessage) → IsNamed m → IsNamed (note_subscription seg m)
unfolding note_subscription
IsNamed-note_subscription seg m h =
    if_ind IsNamed
      (bytes_eq seg.tag segment_tag_loc
        && ltb 0 (length seg.data_elements)
        && (ltb 0 (length (get_or seg.data_elements 0 []))
            && bytes_eq (get_or (get_or seg.data_elements 0 []) 0 []) loc_subscription_position)
        && (ltb 1 (length seg.data_elements) && ltb 0 (length (get_or seg.data_elements 1 []))))
      (λ _. record { has_type = h.has_type; has_reference = h.has_reference }) (λ _. h)

unh_header-IsNamed :
    (seg : Segment) (p : Parser)
    → (unh_header seg p).1.errors ≡ []
    → (p.errors ≡ []) × IsNamed (unh_header seg p).0
unfolding unh_header
unh_header-IsNamed seg p h =
    let (more, has_type) = require-errors _ seg empty_message_type _ h in
    let (first, has_reference) = require-errors _ seg empty_message_reference p more in
    (first, record { has_type = has_type; has_reference = has_reference })

abbrev Keeps : ParsedMessage → ParsedMessage → Type 0
Keeps m m' = IsNamed m → IsNamed m'

module _ (n : ℕ) where
  body_loop-Post : (k : ℕ) (m : ParsedMessage) (p : Parser) → Post p (body_loop n k m p) (Keeps m)
  unfolding body_loop
  body_loop-Post zero m p = Post-none
  body_loop-Post (suc k) m p = elim (Bool-cases (is_eof_type p.current_token.kind)) [
    | inl e ↦ rw (e, body_loop) (Post-some m p (λ h. (h, λ x. x)))
    | inr live ↦ elim (Bool-cases (is_segment_tag p segment_tag_unt)) [
      | inl u ↦ rw (live, u, body_loop) (Post-some m p (λ h. (h, λ x. x)))
      | inr u ↦
          rw (live, u, body_loop)
            (Post-bind (read_segment n p) _ (read_segment-Post n p) λ seg q.
              Post-map (body_loop n k _ q) (body_loop-Post k _ q) (λ b f _ x.
                f (IsNamed-append_segment seg.tag seg (IsNamed-note_subscription seg m x))))
    ]
  ]

  unt_trailer-Post : (m : ParsedMessage) (p : Parser) → Post p (unt_trailer n m p) (Keeps m)
  unfolding unt_trailer
  unt_trailer-Post m p = elim (Bool-cases (is_segment_tag p segment_tag_unt)) [
    | inl u ↦
        rw (u, unt_trailer)
          (Post-bind (read_segment n p) _ (read_segment-Post n p)
            λ seg q. Post-some _ q (λ h. (h, λ _ x. IsNamed-append_segment segment_tag_unt seg x)))
    | inr u ↦
        rw (u, unt_trailer)
          (Post-some m _ (λ h. absurd (
            add_error-ne-nil p p.current_token.line p.current_token.column
              (expected_unt m.message_reference) h)))
  ]

  -- Behind the header of the message.
  message-Post :
      (seg : Segment) (p : Parser)
      → Post p
          (do
            (body, r) ← body_loop n n (unh_header seg p).0 (unh_header seg p).1
            (whole, s) ← unt_trailer n body r
            some (some whole, s))
          (λ m. Unit {0} → IsNamed? m)
  message-Post seg p =
      let (msg, checked) = unh_header seg p in
      Post-before _ (unh_header-IsNamed seg p)
        (Post-bind {Q = Keeps msg} {R = λ m. IsNamed msg → IsNamed? m} (body_loop n n msg checked) _
          (body_loop-Post n msg checked)
          λ body r.
            Post-bind {Q = Keeps body} {R = λ m. Keeps msg body → IsNamed msg → IsNamed? m}
              (unt_trailer n body r) _ (unt_trailer-Post body r)
              λ whole s. Post-some (some whole) s (λ h. (h, λ f g x. f (g x))))
        (λ a named f _. f named)

  -- If no error is recorded when `parseMessage` returns, none was recorded before the call, it
  -- returned a message, and that message has a type and a reference.
  pub parse_message-Post : (p : Parser) → Post p (parse_message n p) IsNamed?
  unfolding parse_message
  parse_message-Post p = Post-bind (read_segment n p) _ (read_segment-Post n p) λ seg q.
      if_ind (λ (o : Option (Option ParsedMessage × Parser)). Post q o (λ m. Unit → IsNamed? m))
        (ltb (length seg.data_elements) unh_min_data_elements)
        (λ _. Post-some none _ (λ h.
          absurd
            (add_error-ne-nil q seg.line seg.column (invalid_unh (length seg.data_elements)) h)))
        (λ _. message-Post seg q)
