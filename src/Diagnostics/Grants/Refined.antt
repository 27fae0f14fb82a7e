-- ===== src/Diagnostics/Grants/Refined.antt =====
-- The cell of a grant against an abstract one-shot token.
use shiroha_quiz.Base.{
  ℕ, ◌≡◌, refl, ap, Bool, true, false, not, ◌&&◌, ◌||◌, List, [], ◌∷◌, if◌then◌else◌,
}
use shiroha_quiz.Diagnostics.Native.{inc}
use shiroha_quiz.Diagnostics.Grants.{
  GrantTarget, GrantState, unissued, issued, consumed, expired, mismatch, unknown, rejected, Cell,
  valid, same_identity, out_of_window, issue, consume,
}
use shiroha_quiz.Diagnostics.Grants.Once.{Request, issues, consumes}

pub data Token : Type 0 where
  fresh spent : Token
  live : GrantTarget → Token

-- The promise: only a valid target is issued, and only to a fresh token; whoever asks a live token spends
-- it, and is granted it where the write is certain and the target is that of the token, in its window.
unfoldable pub answer : Request → Token → Bool × Token
answer (issues t) fresh = (valid t, if valid t then live t else spent)
answer (issues t) (live u) = (false, live u)
answer (issues t) spent = (false, spent)
answer (consumes t now uncertain) fresh = (false, fresh)
answer (consumes t now uncertain) spent = (false, spent)
answer (consumes t now uncertain) (live u) =
    (not uncertain && ((valid t && same_identity t u) && not (out_of_window u now)), spent)

unfoldable pub reply : Request → Cell → Bool × Cell
reply (issues t) c = issue t c
reply (consumes t now uncertain) c = consume t now uncertain c

abbrev view_at : GrantState → GrantTarget → Token
view_at unissued u = fresh
view_at issued u = live u
view_at consumed u = spent
view_at expired u = spent
view_at mismatch u = spent
view_at unknown u = spent
view_at rejected u = spent

abbrev pub view : Cell → Token
view c = view_at c.state c.target

abbrev seen : Bool × Cell → Bool × Token
seen (b, c) = (b, view c)

abbrev cell : GrantState → ℕ → GrantTarget → Cell
cell s n u = record { state = s; attempts = n; target = u }

reply-answer :
    (q : Request) (s : GrantState) (n : ℕ) (u : GrantTarget)
    → seen (reply q (cell s n u)) ≡ answer q (view (cell s n u))
unfolding reply answer issue consume
reply-answer (issues t) unissued n u = at_fresh (valid t)
  where
    at_fresh :
        (b : Bool)
        → seen (if not b then (false, cell rejected n u) else (true, cell issued n t))
          ≡ (b, if b then live t else spent)
    at_fresh true = refl
    at_fresh false = refl
reply-answer (issues t) issued n u = refl
reply-answer (issues t) consumed n u = refl
reply-answer (issues t) expired n u = refl
reply-answer (issues t) mismatch n u = refl
reply-answer (issues t) unknown n u = refl
reply-answer (issues t) rejected n u = refl
reply-answer (consumes t now uncertain) unissued n u = refl
reply-answer (consumes t now uncertain) issued n u =
    at_live uncertain (valid t) (same_identity t u) (out_of_window u now) (inc n)
  where
    at_live :
        (x a b late : Bool) (k : ℕ)
        → seen (
            if x
            then (false, cell unknown k u)
            else if not a || not b
            then (false, cell mismatch k u)
            else if late
            then (false, cell expired k u)
            else (true, cell consumed k u))
          ≡ (not x && ((a && b) && not late), spent)
    at_live true a b late k = refl
    at_live false false b late k = refl
    at_live false true false late k = refl
    at_live false true true false k = refl
    at_live false true true true k = refl
reply-answer (consumes t now uncertain) consumed n u = refl
reply-answer (consumes t now uncertain) expired n u = refl
reply-answer (consumes t now uncertain) mismatch n u = refl
reply-answer (consumes t now uncertain) unknown n u = refl
reply-answer (consumes t now uncertain) rejected n u = refl

-- The answers of a cell, and those of a token, one by one.
unfoldable pub replies : List Request → Cell → List Bool
replies [] c = []
replies (q ∷ qs) c = (reply q c).0 ∷ replies qs (reply q c).1

unfoldable pub answers : List Request → Token → List Bool
answers [] t = []
answers (q ∷ qs) t = (answer q t).0 ∷ answers qs (answer q t).1

-- Whatever it is asked, and in any order, a cell answers as the token that it stands for.
pub replies-answers : (qs : List Request) (c : Cell) → replies qs c ≡ answers qs (view c)
unfolding replies answers
replies-answers [] c = refl
replies-answers (q ∷ qs) c =
    let same = reply-answer q c.state c.attempts c.target in
    rw (ap (λ x. x.0) same, replies-answers qs (reply q c).1, ap (λ x. x.1) same) refl
