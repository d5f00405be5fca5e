-- ===== src/Parser/Acceptance/Loop.antt =====
-- The loop over the messages of parser.go: what each round keeps.
use edifact_parser.Base.{
  ℕ, zero, suc, Bool, false, not, ◌&&◌, ◌||◌, Option, none, some, List, [], ◌∷◌, ◌++◌, ◌≡◌, refl,
  ◌∙◌, inl, inr, arith, Bytes, bytes_eq, bytes_eq_iff, Bool-cases, All, All-append,
}
use edifact_parser.Parser.State.{Parser, ParsedMessage, ParseResult, is_segment_tag, is_empty}
use edifact_parser.Parser.Messages.{segment_tag_unh, parse_message}
use edifact_parser.Parser.Interchange.{in_set, add_message, add_parsed, messages_loop}
use edifact_parser.Parser.Acceptance.{Post, Post-map, Post-some, Post-none, Post-bind}
use edifact_parser.Parser.Acceptance.Messages.{IsNamed, IsNamed?, parse_message-Post}

-- Some message names this subscription.
abbrev pub mentioned : Bytes → List ParsedMessage → Bool
mentioned b [] = false
mentioned b (m ∷ ms) =
    (not (is_empty m.subscription_id) && bytes_eq m.subscription_id b) || mentioned b ms

abbrev pub IsNodup : List Bytes → Type 0
IsNodup [] = Unit
IsNodup (x ∷ xs) = (in_set x xs ≡ false) × IsNodup xs

in_set-append :
    (b : Bytes) (xs : List Bytes) (x : Bytes)
    → in_set b (xs ++ x ∷ []) ≡ (in_set b xs || bytes_eq x b)
in_set-append b [] x = ground arith
in_set-append b (y ∷ ys) x = ground (arith, in_set-append b ys x)

mentioned-append :
    (b : Bytes) (ms : List ParsedMessage) (m : ParsedMessage)
    → mentioned b (ms ++ m ∷ [])
      ≡ (mentioned b ms || (not (is_empty m.subscription_id) && bytes_eq m.subscription_id b))
mentioned-append b [] m = ground arith
mentioned-append b (x ∷ ms) m = ground (arith, mentioned-append b ms m)

bytes_eq-sym : (a b : Bytes) → bytes_eq a b ≡ bytes_eq b a
bytes_eq-sym a b = ground (arith, bytes_eq_iff a b, bytes_eq_iff b a)

IsNodup-append :
    (xs : List Bytes) (x : Bytes) → IsNodup xs → in_set x xs ≡ false → IsNodup (xs ++ x ∷ [])
IsNodup-append [] x h n = (refl, tt)
IsNodup-append (y ∷ ys) x h n =
    (ground (arith, in_set-append y ys x, bytes_eq-sym x y), IsNodup-append ys x h.1 (ground arith))

-- The invariant of the loop over messages: the slice and the set of subscriptions.
pub record LoopInv (x : ParseResult × List Bytes) : Type 0 where
  pub named : All IsNamed x.0.messages
  pub distinct : IsNodup x.0.subscriptions
  pub same_set : (b : Bytes) → in_set b x.1 ≡ in_set b x.0.subscriptions
  pub complete : (b : Bytes) → in_set b x.0.subscriptions ≡ mentioned b x.0.messages

-- The header's fields stay as they are.
pub record SameHeader (a b : ParseResult) : Type 0 where
  pub sender : b.sender_id ≡ a.sender_id
  pub receiver : b.receiver_id ≡ a.receiver_id
  pub reference : b.reference ≡ a.reference
  pub hash : b.content_hash ≡ a.content_hash

SameHeader-refl : (a : ParseResult) → SameHeader a a
SameHeader-refl a = record { sender = refl; receiver = refl; reference = refl; hash = refl }

SameHeader-trans : {a b c : ParseResult} → SameHeader a b → SameHeader b c → SameHeader a c
SameHeader-trans h k = record {
  sender = k.sender ∙ h.sender;
  receiver = k.receiver ∙ h.receiver;
  reference = k.reference ∙ h.reference;
  hash = k.hash ∙ h.hash;
}

add_message-SameHeader :
    (m : ParsedMessage) (x : ParseResult × List Bytes) → SameHeader x.0 (add_message m x).0
unfolding add_message
add_message-SameHeader m (r, seen) = ground arith

module _ (m : ParsedMessage) (r : ParseResult) (seen : List Bytes) (named : IsNamed m)
    (inv : LoopInv (r, seen)) where
  add_message_complete :
      (b : Bytes)
      → in_set b (add_message m (r, seen)).0.subscriptions
        ≡ mentioned b (add_message m (r, seen)).0.messages
  unfolding add_message
  add_message_complete b = ground (
    arith,
    mentioned-append b r.messages m,
    in_set-append b r.subscriptions m.subscription_id,
    inv.complete b,
    inv.complete m.subscription_id,
    inv.same_set m.subscription_id,
    bytes_eq_iff m.subscription_id b,
  )

  add_message-same_set :
      (b : Bytes)
      → in_set b (add_message m (r, seen)).1 ≡ in_set b (add_message m (r, seen)).0.subscriptions
  unfolding add_message
  add_message-same_set b =
      ground (arith, in_set-append b r.subscriptions m.subscription_id, inv.same_set b)

  messages-add_message : (add_message m (r, seen)).0.messages ≡ r.messages ++ m ∷ []
  unfolding add_message
  messages-add_message = ground arith

  add_message-IsNamed : All IsNamed (add_message m (r, seen)).0.messages
  add_message-IsNamed =
      rw messages-add_message (All-append IsNamed r.messages (m ∷ []) inv.named (named, tt))

  add_message-distinct : IsNodup (add_message m (r, seen)).0.subscriptions
  unfolding add_message
  add_message-distinct = ground (
    arith,
    inv.distinct,
    inv.same_set m.subscription_id,
    IsNodup-append r.subscriptions m.subscription_id inv.distinct,
  )

  add_message-LoopInv : LoopInv (add_message m (r, seen))
  add_message-LoopInv = record {
    named = add_message-IsNamed;
    distinct = add_message-distinct;
    same_set = add_message-same_set;
    complete = add_message_complete;
  }

pub record LoopKeeps (x y : ParseResult × List Bytes) : Type 0 where
  pub inv : LoopInv x → LoopInv y
  pub header : SameHeader x.0 y.0

LoopKeeps-trans : {x y z : ParseResult × List Bytes} → LoopKeeps x y → LoopKeeps y z → LoopKeeps x z
LoopKeeps-trans a b = record {
  inv = λ i. b.inv (a.inv i);
  header = SameHeader-trans a.header b.header;
}

add_parsed-LoopKeeps :
    (parsed : Option ParsedMessage) (x : ParseResult × List Bytes)
    → IsNamed? parsed
    → LoopKeeps x (add_parsed parsed x)
add_parsed-LoopKeeps none x h = absurd h
add_parsed-LoopKeeps (some m) (r, seen) h = record {
  inv = add_message-LoopInv m r seen h;
  header = add_message-SameHeader m (r, seen);
}

pub messages_loop-Post :
    (n k : ℕ) (x : ParseResult × List Bytes) (p : Parser)
    → Post p (messages_loop n k x p) (LoopKeeps x)
unfolding messages_loop
messages_loop-Post n zero x p = Post-none
messages_loop-Post n (suc k) x p = elim (Bool-cases (is_segment_tag p segment_tag_unh)) [
  | inr u ↦
      rw (u, messages_loop)
        (Post-some x p (λ h. (h, record { inv = λ i. i; header = SameHeader-refl x.0 })))
  | inl u ↦
      rw (u, messages_loop)
        (Post-bind (parse_message n p) _ (parse_message-Post n p) λ m q.
          Post-map (messages_loop n k (add_parsed m x) q)
            (messages_loop-Post n k (add_parsed m x) q)
            (λ y f named. LoopKeeps-trans (add_parsed-LoopKeeps m x named) f))
]
