-- ===== src/Server/Answers.antt =====
-- internal/server/server.go: the errors of the store that `execute` answers.
use mini_key_value_store.Prelude.{
  ℕ, Bool, true, false, Option, none, some, Bytes, ℤ, sym, subst, arith,
}
use mini_key_value_store.Item
use mini_key_value_store.Item.{StoreError, Result, ok, err}
use mini_key_value_store.Recency.{Items}
use mini_key_value_store.Shard.{Shard}
use mini_key_value_store.Shard.Methods
use mini_key_value_store.Shard.Repr.{Limits}
use mini_key_value_store.Shard.Refine.Set.{set-Refines}
use mini_key_value_store.Shard.Refine.Updates.{cas-Refines}
use mini_key_value_store.Shard.Refine.Incr.{incr-Refines}
use mini_key_value_store.Cache
use mini_key_value_store.Store.Valid.{ShardValid}
use mini_key_value_store.Server.Execute.{
  Executed, replies, fails, get_answer, set_answer, cas_answer, incr_answer, delete_answer,
}

-- The execution writes replies; it does not return an error.
abbrev pub HasReplies : Executed → Type 0
HasReplies (replies rs) = Unit
HasReplies (fails e) = ⊥

module _ (lim : Limits) (now : ℕ) (key value : Bytes) (ttl : ℤ) where
  cache_set-HasReplies :
      (es : Items) (counter : ℕ)
      → HasReplies (set_answer (Cache.set lim now key value ttl es counter).2)
  unfolding set_answer Cache.set Cache.set_sized
  cache_set-HasReplies es counter = ground arith

  pub set-HasReplies :
      (sh : Shard) (c : ℕ)
      → ShardValid lim sh
      → HasReplies (set_answer (Methods.set now key value ttl sh c).2)
  set-HasReplies sh c (es, r) =
      subst (λ o. HasReplies (set_answer o))
        (sym (set-Refines lim now key value ttl c sh es r).result) (cache_set-HasReplies es c)

  module _ (expected : ℕ) where
    cache_cas-HasReplies :
        (es : Items) (counter : ℕ)
        → HasReplies (cas_answer (Cache.cas lim now key value ttl expected es counter).2)
    unfolding cas_answer Cache.cas Cache.cas_view
    cache_cas-HasReplies es counter = ground arith

    pub cas-HasReplies :
        (sh : Shard) (c : ℕ)
        → ShardValid lim sh
        → HasReplies (cas_answer (Methods.cas now key value ttl expected sh c).2)
    cas-HasReplies sh c (es, r) =
        subst (λ o. HasReplies (cas_answer o))
          (sym (cas-Refines lim now key c sh es r value ttl expected).result)
          (cache_cas-HasReplies es c)

module _ (lim : Limits) (now : ℕ) (key : Bytes) (delta : ℕ) where
  cache_incr-HasReplies :
      (es : Items) (counter : ℕ)
      → HasReplies (incr_answer (Cache.incr lim now key delta es counter).2)
  unfolding incr_answer Cache.incr Cache.incr_view Cache.incr_number Cache.incr_to
  cache_incr-HasReplies es counter = ground arith

  pub incr-HasReplies :
      (sh : Shard) (c : ℕ)
      → ShardValid lim sh
      → HasReplies (incr_answer (Methods.incr now key delta sh c).2)
  incr-HasReplies sh c (es, r) =
      subst (λ o. HasReplies (incr_answer o))
        (sym (incr-Refines lim now key c sh es r delta).result) (cache_incr-HasReplies es c)

pub get_answer-HasReplies : (key : Bytes) (o : Option Item.Item) → HasReplies (get_answer key o)
unfolding get_answer
get_answer-HasReplies key none = tt
get_answer-HasReplies key (some i) = tt

pub delete_answer-HasReplies : (b : Bool) → HasReplies (delete_answer b)
delete_answer-HasReplies true = tt
delete_answer-HasReplies false = tt
