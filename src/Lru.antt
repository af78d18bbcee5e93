-- ===== src/Lru.antt =====
-- internal/store/lru.go: the intrusive doubly linked list over the stored items. An item is known
-- by an address of type `K`; the `prev` and `next` fields of all items are the heap `links`.
pub mod Seg
mod Unlink
pub mod Moves
pub mod Chain
use mini_key_value_store.Prelude.{Option, none, some, ite, Bool, true, false, if◌then◌else◌}

-- The fields `prev` and `next` of a `storedItem`.
pub record Link (K : Type 0) : Type 0 where
  pub prev : Option K
  pub next : Option K

pub record LruList (K : Type 0) : Type 0 where
  pub head : Option K
  pub tail : Option K
  pub links : K → Link K

abbrev pub empty : {K : Type 0} → LruList K
empty = record { head = none; tail = none; links = λ _. record { prev = none; next = none } }

abbrev pub back : {K : Type 0} → LruList K → Option K
back l = l.tail

module _ {K : Type 0} (dec : Discrete K) where
  abbrev pub write : (K → Link K) → K → Link K → K → Link K
  write f a v b = ite (dec b a) v (f b)

  -- `a.prev = p` and `a.next = n`
  abbrev pub set_prev : LruList K → K → Option K → LruList K
  set_prev l a p = record l { links = write l.links a (record (l.links a) { prev = p }) }

  abbrev pub set_next : LruList K → K → Option K → LruList K
  set_next l a n = record l { links = write l.links a (record (l.links a) { next = n }) }

  -- `if l.head != nil { l.head.prev = item }`
  set_head_prev : LruList K → Option K → K → LruList K
  set_head_prev l none item = l
  set_head_prev l (some h) item = set_prev l h (some item)

  -- `if l.tail == nil { l.tail = item }`
  fill_tail : LruList K → Option K → K → LruList K
  fill_tail l none item = record l { tail = some item }
  fill_tail l (some _) item = l

  unfoldable pub push_front : LruList K → K → LruList K
  unfolding set_head_prev fill_tail
  push_front l item =
      let l1 = set_next (set_prev l item none) item l.head in
      let l2 = record (set_head_prev l1 l1.head item) { head = some item } in
      fill_tail l2 l2.tail item

  -- `if item.prev != nil { item.prev.next = item.next } else { l.head = item.next }`
  bypass_next : LruList K → Option K → Option K → LruList K
  bypass_next l none next = record l { head = next }
  bypass_next l (some p) next = set_next l p next

  -- `if item.next != nil { item.next.prev = item.prev } else { l.tail = item.prev }`
  bypass_prev : LruList K → Option K → Option K → LruList K
  bypass_prev l none prev = record l { tail = prev }
  bypass_prev l (some n) prev = set_prev l n prev

  unfoldable pub remove : LruList K → K → LruList K
  unfolding bypass_next bypass_prev
  remove l item =
      let l1 = bypass_next l (l.links item).prev (l.links item).next in
      let l2 = bypass_prev l1 (l1.links item).next (l1.links item).prev in
      set_next (set_prev l2 item none) item none

  -- `l.head == item`
  abbrev pub points_to : Option K → K → Bool
  points_to none item = false
  points_to (some h) item = ite (dec h item) true false

  unfoldable pub move_to_front : LruList K → K → LruList K
  unfolding remove push_front
  move_to_front l item = if points_to l.head item then l else push_front (remove l item) item
