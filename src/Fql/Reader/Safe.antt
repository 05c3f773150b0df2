-- ===== src/Fql/Reader/Safe.antt =====
-- Fql.Reader.Safe: a Hoare logic for the parser. A safe parser neither panics nor runs out of fuel, gives
-- back the depth, never passes the end of its tokens, and reports errors at positions of its tokens.
use flexitype.Prelude.{
  ℕ, suc, ◌+◌, ◌≤◌, ◌<◌, ◌≡◌, refl, ◌≢◌, ◌⊎◌, inl, inr, String, Bool, true, false, ◌&&◌, List, [],
  ◌∷◌, arith, Bool-cases, ltb, if◌then◌else◌, length,
}
use flexitype.Bytes.{Bytes, equal_fold}
use flexitype.Outcome.{ok, Ensures, holds, rejected, Ensures-bind, Ensures-weaken}
use flexitype.Fql.Token.{TokenKind, Token, Message, eq_kind, eof, ident}
use flexitype.Fql.Reader.{
  State, Parser, pure, raise, ◌>>=◌, peek, next, peek_second, nested, keyword, expect, leave,
  max_parse_depth,
}

-- There is an end among the tokens, and the positions up to it are at most `n`.
abbrev pub IsEnded : ℕ → List Token → Type 0
IsEnded n [] = ⊥
IsEnded n (t ∷ ts) = (t.pos ≤ n) × ((t.kind ≡ eof) ⊎ IsEnded n ts)

-- Assertions on the tokens that are left.
abbrev pub Any : List Token → Type 0
Any ts = Unit

abbrev pub Head : Token → List Token → Type 0
Head t [] = ⊥
Head t (u ∷ us) = u ≡ t

abbrev pub NotAtEnd : List Token → Type 0
NotAtEnd [] = ⊥
NotAtEnd (t ∷ ts) = t.kind ≢ eof

abbrev Post :
    {A : Type 0} (n d k : ℕ) (P : A → Type 0) (T : A → List Token → Type 0) (ts : List Token)
    → A × State
    → Type 0
Post n d k P T ts (a, s) =
    P a × T a s.tokens × IsEnded n s.tokens × (length s.tokens + k ≤ length ts) × (s.depth ≡ d)

-- From a state at depth `d` with at most `l` tokens of which `H` holds, `m` returns an error at a position
-- up to `n`, or a value with `P`; then it has consumed at least `k` tokens, and `T` holds of the rest.
pub record Safe {A : Type 0} (n d l : ℕ) (H : List Token → Type 0) (k : ℕ) (P : A → Type 0)
    (T : A → List Token → Type 0) (m : Parser A) : Type 0 where
  pub run :
      (s : State)
      → IsEnded n s.tokens
      → length s.tokens ≤ l
      → s.depth ≡ d
      → H s.tokens
      → Ensures (λ e. e.pos ≤ n) (Post n d k P T s.tokens) (m s)

module _ {A : Type 0} {n d l : ℕ} {H : List Token → Type 0} where
  pub Safe-pure : {P : A → Type 0} (a : A) → P a → Safe n d l H 0 P (λ _. Any) (pure a)
  Safe-pure a h = record { run = λ s v b e p. holds (h, tt, v, omega arith, e) }

  pub Safe-pure_at :
      {P : A → Type 0} {T : A → List Token → Type 0} (a : A)
      → P a
      → ((ts : List Token) → H ts → T a ts)
      → Safe n d l H 0 P T (pure a)
  Safe-pure_at a h g = record { run = λ s v b e p. holds (h, g s.tokens p, v, omega arith, e) }

  pub Safe-raise :
      {k : ℕ} {P : A → Type 0} {T : A → List Token → Type 0} (pos : ℕ) (message : Message)
      → pos ≤ n
      → Safe n d l H k P T (raise pos message)
  Safe-raise pos message h = record { run = λ s v b e p. rejected h }

  pub Safe-if :
      {k : ℕ} {P : A → Type 0} {T : A → List Token → Type 0} (b : Bool) {x y : Parser A}
      → (b ≡ true → Safe n d l H k P T x)
      → (b ≡ false → Safe n d l H k P T y)
      → Safe n d l H k P T (if b then x else y)
  Safe-if true hx hy = hx refl
  Safe-if false hx hy = hy refl

  pub Safe-weaken :
      {k j : ℕ} {P Q : A → Type 0} {T : A → List Token → Type 0} {m : Parser A}
      → Safe n d l H k P T m
      → j ≤ k
      → ((a : A) → P a → Q a)
      → Safe n d l H j Q (λ _. Any) m
  Safe-weaken h le k = record {
    run = λ s v b e p.
        Ensures-weaken (h.run s v b e p) λ (a, s') q. (k a q.0, tt, q.2, omega (arith, q.3), q.4);
  }

module _ {A B : Type 0} {n d l : ℕ} {H : List Token → Type 0} where
  pub Safe-bind :
      {k j : ℕ} {P : A → Type 0} {T : A → List Token → Type 0} {Q : B → Type 0}
      {U : B → List Token → Type 0} {m : Parser A} {f : A → Parser B}
      → Safe n d l H k P T m
      → ((l' : ℕ) → l' + k ≤ l → (a : A) → P a → Safe n d l' (T a) j Q U (f a))
      → Safe n d l H (k + j) Q U (m >>= f)
  unfolding ◌>>=◌
  Safe-bind h g = record {
    run = λ s v b e p. Ensures-bind (h.run s v b e p) λ (a, s') q.
        Ensures-weaken
          ((g (length s'.tokens) (omega (arith, q.3)) a q.0).run s' q.2 (omega arith) q.4 q.1)
          λ (c, s'') r. (r.0, r.1, r.2, omega (arith, r.3, q.3), r.4);
  }

peek-run :
    (n d : ℕ) (ts : List Token)
    → IsEnded n ts
    → Ensures
        (λ e. e.pos ≤ n)
        (Post n d 0 (λ t. t.pos ≤ n) Head ts)
        (peek (record { tokens = ts; depth = d }))
unfolding peek
peek-run n d [] v = absurd v
peek-run n d (t ∷ ts) v = holds (v.0, refl, v, omega arith, refl)

peek_keeping-run :
    (n d : ℕ) (H : List Token → Type 0) (ts : List Token)
    → IsEnded n ts
    → H ts
    → Ensures
        (λ e. e.pos ≤ n)
        (Post n d 0 (λ t. t.pos ≤ n) (λ _. H) ts)
        (peek (record { tokens = ts; depth = d }))
unfolding peek
peek_keeping-run n d H [] v h = absurd v
peek_keeping-run n d H (t ∷ ts) v h = holds (v.0, h, v, omega arith, refl)

next-run :
    (n d : ℕ) (ts : List Token)
    → IsEnded n ts
    → Ensures
        (λ e. e.pos ≤ n)
        (Post n d 0 (λ t. t.pos ≤ n) (λ _. Any) ts)
        (next (record { tokens = ts; depth = d }))
unfolding next
next-run n d [] v = absurd v
next-run n d (t ∷ ts) v = elim (Bool-cases (eq_kind t.kind eof)) [
  | inl e ↦ rw e (holds (v.0, tt, v, omega arith, refl))
  | inr e ↦ rw e (holds (v.0, tt, behind t.kind e v.1, omega arith, refl))
]
  where
    behind :
        (kind : TokenKind) → eq_kind kind eof ≡ false → (kind ≡ eof) ⊎ IsEnded n ts → IsEnded n ts
    behind kind e (inl h) = ground arith
    behind kind e (inr h) = h

next_inside-run :
    (n d : ℕ) (ts : List Token)
    → IsEnded n ts
    → NotAtEnd ts
    → Ensures
        (λ e. e.pos ≤ n)
        (Post n d 1 (λ t. t.pos ≤ n) (λ _. Any) ts)
        (next (record { tokens = ts; depth = d }))
unfolding next
next_inside-run n d [] v h = absurd v
next_inside-run n d (t ∷ ts) v h = elim (Bool-cases (eq_kind t.kind eof)) [
  | inl e ↦ absurd (h (is_eof t.kind e))
  | inr e ↦ rw e (holds (v.0, tt, behind v.1, omega arith, refl))
]
  where
    is_eof : (kind : TokenKind) → eq_kind kind eof ≡ true → kind ≡ eof
    is_eof kind e = ground arith

    behind : (t.kind ≡ eof) ⊎ IsEnded n ts → IsEnded n ts
    behind (inl e) = absurd (h e)
    behind (inr e) = e

peek_second-run :
    (n d : ℕ) (ts : List Token)
    → IsEnded n ts
    → NotAtEnd ts
    → Ensures
        (λ e. e.pos ≤ n)
        (Post n d 0 (λ _. Unit) (λ _. NotAtEnd) ts)
        (peek_second (record { tokens = ts; depth = d }))
unfolding peek_second
peek_second-run n d [] v h = absurd v
peek_second-run n d (t ∷ []) v h = absurd (elim v.1 [ inl e ↦ h e | inr e ↦ e ])
peek_second-run n d (t ∷ u ∷ ts) v h = holds (tt, h, v, omega arith, refl)

module _ {n d l : ℕ} {H : List Token → Type 0} where
  pub peek-Safe : Safe n d l H 0 (λ t. t.pos ≤ n) Head peek
  peek-Safe = record { run = λ s v b e p. rw (← e) (peek-run n s.depth s.tokens v) }

  pub peek_keeping-Safe : Safe n d l H 0 (λ t. t.pos ≤ n) (λ _. H) peek
  peek_keeping-Safe = record {
    run = λ s v b e p. rw (← e) (peek_keeping-run n s.depth H s.tokens v p);
  }

  pub next-Safe : Safe n d l H 0 (λ t. t.pos ≤ n) (λ _. Any) next
  next-Safe = record { run = λ s v b e p. rw (← e) (next-run n s.depth s.tokens v) }

module _ {n d l : ℕ} where
  pub next_inside-Safe : Safe n d l NotAtEnd 1 (λ t. t.pos ≤ n) (λ _. Any) next
  next_inside-Safe = record { run = λ s v b e p. rw (← e) (next_inside-run n s.depth s.tokens v p) }

  pub peek_second-Safe : Safe n d l NotAtEnd 0 (λ _. Unit) (λ _. NotAtEnd) peek_second
  peek_second-Safe = record { run = λ s v b e p. rw (← e) (peek_second-run n s.depth s.tokens v p) }

module _ {A : Type 0} {n d l : ℕ} {H G : List Token → Type 0} where
  pub Safe-pre :
      {k : ℕ} {P : A → Type 0} {T : A → List Token → Type 0} {m : Parser A}
      → Safe n d l H k P T m
      → ((ts : List Token) → G ts → H ts)
      → Safe n d l G k P T m
  Safe-pre h g = record { run = λ s v b e p. h.run s v b e (g s.tokens p) }

pub eq_kind→eq : (a b : TokenKind) → eq_kind a b ≡ true → a ≡ b
eq_kind→eq a b e = ground arith

pub Head-NotAtEnd : (t : Token) → t.kind ≢ eof → (ts : List Token) → Head t ts → NotAtEnd ts
Head-NotAtEnd t h [] p = p
Head-NotAtEnd t h (u ∷ us) p = λ e. h (rw (← p) e)

module _ {n d l : ℕ} {H : List Token → Type 0} where
  -- Behind a word the parser is not at the end.
  pub keyword-Safe :
      (word : Bytes) → Safe n d l H 0 (λ _. Unit) (λ b ts. b ≡ true → NotAtEnd ts) (keyword word)
  unfolding keyword
  keyword-Safe word =
      Safe-bind peek-Safe
        λ l' _ t h. Safe-pure_at _ tt λ ts head e. Head-NotAtEnd t (word_ne t e) ts head
    where
      word_ne : (t : Token) → (eq_kind t.kind ident && equal_fold t.text word) ≡ true → t.kind ≢ eof
      word_ne t e k = ground arith

  pub expect-Safe :
      (kind : TokenKind) (what : String)
      → kind ≢ eof
      → Safe n d l H 1 (λ t. t.pos ≤ n) (λ _. Any) (expect kind what)
  unfolding expect
  expect-Safe kind what h = Safe-bind peek-Safe λ l' _ t p.
      Safe-if (eq_kind t.kind kind)
        (λ e. Safe-pre next_inside-Safe (Head-NotAtEnd t (λ k. h (cc (eq_kind→eq t.kind kind e)))))
        (λ _. Safe-raise t.pos _ p)

leave_lem : (s : State) (d : ℕ) → s.depth ≡ suc d → leave s ≡ ok (tt, record s { depth = d })
unfolding leave
leave_lem s d e = ground arith

module _ {A : Type 0} {n d l : ℕ} {H : List Token → Type 0} where
  -- A body one level down, below the limit on the depth.
  pub nested-Safe :
      {k : ℕ} {P : A → Type 0} (pos : ℕ) (body : Parser A)
      → pos ≤ n
      → (d < max_parse_depth → Safe n (suc d) l H k P (λ _. Any) body)
      → Safe n d l H k P (λ _. Any) (nested pos body)
  unfolding nested ◌>>=◌
  nested-Safe {k} {P} pos body h g = record {
    run = λ s v b e p. elim (Bool-cases (ltb max_parse_depth (s.depth + 1))) [
      | inl deep ↦ rw deep (rejected h)
      | inr room ↦ rw room (
          Ensures-bind
            ((g (ground arith)).run (record s { depth = s.depth + 1 }) v b (omega arith) p)
            λ (a, s') q. rw (leave_lem s' d q.4) (holds (q.0, tt, q.2, q.3, refl)))
    ];
  }
