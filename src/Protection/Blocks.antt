-- ===== src/Protection/Blocks.antt =====
-- windows/external_native/native_core.cpp, the blocks behind the buffers of the native core.
use shiroha_quiz.Base.{
  ℕ, ◌+◌, ◌-◌, ◌≤◌, ◌<◌, ◌≡◌, refl, sym, ◌∙◌, inl, inr, false, not, ◌&&◌, ◌||◌, some, ltb, leb,
  ◌==◌, arith, replicate, Bool-cases,
}
use shiroha_quiz.Status.{max_bytes, uintptr_max}
use shiroha_quiz.Memory.{Memory, clear, store, load, read}
use shiroha_quiz.Memory.Writes.{
  Outside, clear-Outside, load-store, read-clear_within, read_cong, store-Outside,
}
use shiroha_quiz.Protection.{buffer_alloc, buffer_free}

-- The memories agree on the header.
abbrev SameHeader : ℕ → Memory → Memory → Type 0
SameHeader block m k = (a : ℕ) → block ≤ a → a < block + 8 → m a ≡ k a

load_cong : (p : ℕ) (m k : Memory) → SameHeader p m k → load p m ≡ load p k
unfolding load
load_cong p m k h =
    rw
      (
        h p (omega arith) (omega arith),
        h (p + 1) (omega arith) (omega arith),
        h (p + 2) (omega arith) (omega arith),
        h (p + 3) (omega arith) (omega arith),
        h (p + 4) (omega arith) (omega arith),
        h (p + 5) (omega arith) (omega arith),
        h (p + 6) (omega arith) (omega arith),
        h (p + 7) (omega arith) (omega arith),
      )
      refl

clear_inside : (p n a : ℕ) (m : Memory) → p ≤ a → a < p + n → clear p n m a ≡ 0
unfolding clear
clear_inside p n a m l r = ground arith

abbrev taken : ℕ → ℕ → Memory → Memory
taken block capacity m = store block capacity (clear block (8 + capacity) m)

buffer_alloc-taken :
    (block capacity : ℕ) (m : Memory)
    → 0 < capacity
    → capacity ≤ max_bytes
    → buffer_alloc (some block) capacity m ≡ (block + 8, taken block capacity m)
unfolding buffer_alloc
buffer_alloc-taken block capacity m l u =
    let usable : (not (ltb 0 capacity && leb capacity max_bytes) || ltb (uintptr_max - 8) capacity)
        ≡ false =
      ground (arith, l, u) in
    rw usable refl

abbrev given : ℕ → ℕ → Memory → Memory
given block capacity k = clear block 8 (clear (block + 8) capacity k)

buffer_free-given :
    (block capacity : ℕ) (k : Memory)
    → load block k ≡ capacity
    → buffer_free (block + 8) k ≡ (some block, given block capacity k)
unfolding buffer_free
buffer_free-given block capacity k e =
    let not_null : (block + 8 == 0) ≡ false = ground arith in
    let back : block + 8 - 8 ≡ block = omega arith in rw (not_null, back, e) refl

taken-zeros :
    (block capacity : ℕ) (m : Memory)
    → read (block + 8) capacity (taken block capacity m) ≡ replicate capacity 0
taken-zeros block capacity m =
    read_cong capacity (block + 8) (taken block capacity m) (clear block (8 + capacity) m)
      (λ a l r. store-Outside block capacity a (clear block (8 + capacity) m) (inr l))
    ∙ read-clear_within block (8 + capacity) (block + 8) capacity m (omega arith) (omega arith)

given-wiped :
    (block capacity a : ℕ) (k : Memory)
    → block ≤ a
    → a < block + 8 + capacity
    → given block capacity k a ≡ 0
given-wiped block capacity a k l r = elim (Bool-cases (ltb a (block + 8))) [
  | inl e ↦ clear_inside block 8 a _ l (ground (arith, e))
  | inr e ↦
      clear-Outside block 8 a (clear (block + 8) capacity k) (inr (ground (arith, e)))
      ∙ clear_inside (block + 8) capacity a k (ground (arith, e)) r
]

given-same :
    (block capacity a : ℕ) (k : Memory)
    → Outside block (8 + capacity) a
    → given block capacity k a ≡ k a
given-same block capacity a k o =
    clear-Outside block 8 a (clear (block + 8) capacity k)
      (elim o [ inl l ↦ inl l | inr r ↦ inr (omega (arith, r)) ])
    ∙ clear-Outside (block + 8) capacity a k
        (elim o [ inl l ↦ inl (omega (arith, l)) | inr r ↦ inr (omega (arith, r)) ])

-- What a call that allocates and the call that frees its buffer do, `m` before the one and `k` before the
-- other.
pub record IsFreed (block capacity : ℕ) (m k : Memory) : Type 0 where
  pub zeros :
      read
        (buffer_alloc (some block) capacity m).0
        capacity
        (buffer_alloc (some block) capacity m).1
      ≡ replicate capacity 0
  pub freed : (buffer_free (buffer_alloc (some block) capacity m).0 k).0 ≡ some block
  pub wiped :
      (a : ℕ)
      → block ≤ a
      → a < block + 8 + capacity
      → (buffer_free (buffer_alloc (some block) capacity m).0 k).1 a ≡ 0
  pub elsewhere :
      (a : ℕ)
      → Outside block (8 + capacity) a
      → (buffer_free (buffer_alloc (some block) capacity m).0 k).1 a ≡ k a

-- For every block that `calloc` returns and every capacity from 1 to 65536, the buffer holds zeros; and
-- whatever is written behind its header, `buffer_free` gives exactly that block back, with all of its
-- bytes and its header wiped and no other byte changed.
pub buffer_free-IsFreed :
    (block capacity : ℕ) (m k : Memory)
    → 0 < capacity
    → capacity ≤ max_bytes
    → SameHeader block (buffer_alloc (some block) capacity m).1 k
    → IsFreed block capacity m k
buffer_free-IsFreed block capacity m k l u same =
    let alloc = buffer_alloc-taken block capacity m l u in
    let size : load block k ≡ capacity =
      sym (load_cong block (taken block capacity m) k (rw alloc at same))
      ∙ load-store block capacity (clear block (8 + capacity) m) (omega (arith, u)) in
    let free = buffer_free-given block capacity k size in
    record {
      zeros = rw alloc (taken-zeros block capacity m);
      freed = rw (alloc, free) refl;
      wiped = λ a from to. rw (alloc, free) (given-wiped block capacity a k from to);
      elsewhere = λ a o. rw (alloc, free) (given-same block capacity a k o);
    }
