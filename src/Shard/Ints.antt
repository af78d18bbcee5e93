-- ===== src/Shard/Ints.antt =====
-- internal/store/shard.go: the sums of an `int` in a write, as the machine makes them, and when they
-- are the exact ones. An `int` is the number below 2^64 that its 64 bits are.
use mini_key_value_store.Prelude.{
  ℕ, ◌+◌, ◌-◌, ◌%◌, ◌^◌, ◌≤◌, ◌<◌, Bool, Option-cases, inl, inr, Bytes, length, ltb, ◌≡◌, sym, ◌∙◌,
  arith,
}
use mini_key_value_store.Recency.{Items, find}
use mini_key_value_store.Recency.Laws.{total-drop}
use mini_key_value_store.Shard.{Shard, item_at, item_size}
use mini_key_value_store.Shard.Methods.{projection, size_of}
use mini_key_value_store.Shard.Repr.{Limits, Repr}
use mini_key_value_store.Shard.Refine.{item_size-eq}

-- `itemSize`
unfoldable pub int_item_size : Shard → Bytes → ℕ → ℕ
int_item_size sh key n = ((length key + n) % 2 ^ 64 + sh.item_overhead_bytes) % 2 ^ 64

-- `a < b`, where a number from 2^63 on stands for a negative one
unfoldable pub int_less : ℕ → ℕ → Bool
int_less a b = ltb ((a + 2 ^ 63) % 2 ^ 64) ((b + 2 ^ 63) % 2 ^ 64)

-- `memoryBytes - oldSize + size`
unfoldable pub int_projection : Shard → ℕ → ℕ → ℕ
int_projection sh old_size size = ((sh.memory_bytes + (2 ^ 64 - old_size)) % 2 ^ 64 + size) % 2 ^ 64

pub int_less-ltb : (a b : ℕ) → a < 2 ^ 63 → b < 2 ^ 63 → int_less a b ≡ ltb a b
unfolding int_less
int_less-ltb a b h k =
    let a' : (a + 2 ^ 63) % 2 ^ 64 ≡ a + 2 ^ 63 = omega arith in
    let b' : (b + 2 ^ 63) % 2 ^ 64 ≡ b + 2 ^ 63 = omega arith in
    rw (int_less, a', b') (ground arith)

pub int_projection-eq :
    (sh : Shard) (old n : ℕ)
    → old ≤ sh.memory_bytes
    → sh.memory_bytes + n < 2 ^ 63
    → int_projection sh old n ≡ projection sh old n
unfolding int_projection
int_projection-eq sh old n l h =
    let freed : (sh.memory_bytes + (2 ^ 64 - old)) % 2 ^ 64 ≡ sh.memory_bytes - old =
      omega (arith, l, h) in
    let room : (sh.memory_bytes - old + n) % 2 ^ 64 ≡ sh.memory_bytes - old + n =
      omega (arith, l, h) in
    rw freed room

pub old_size-le :
    (lim : Limits) (sh : Shard) (es : Items) (key : Bytes)
    → Repr lim sh es
    → size_of (item_at sh key) ≤ sh.memory_bytes
old_size-le lim sh es key r = elim (Option-cases (find key es)) [
  | inl f ↦ rw (r.found key, f) (omega arith)
  | inr (e, f) ↦ rw (r.found key, f) (omega (arith, r.memory, total-drop key es e f))
]

pub int_item_size-eq :
    (lim : Limits) (sh : Shard) (es : Items) (key : Bytes) (n : ℕ)
    → Repr lim sh es
    → length key + n + lim.overhead + lim.max_memory < 2 ^ 63
    → int_item_size sh key n ≡ item_size sh key n
unfolding int_item_size
int_item_size-eq lim sh es key n r h =
    let size = item_size-eq lim 0 key sh es r n in
    let lower : (length key + n) % 2 ^ 64 ≡ length key + n = omega (arith, h) in
    let whole : (length key + n + sh.item_overhead_bytes) % 2 ^ 64 ≡ length key + n + lim.overhead =
      omega (arith, h, r.overhead) in
    rw lower (whole ∙ sym size)
