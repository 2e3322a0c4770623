-- ===== src/Dns/Cache.antt =====
-- network/dns/cache.go and resolver.go: what is answered from the cache.
use zylo.Prelude.{
  ℕ, ◌+◌, ◌≤◌, ◌≡◌, refl, ◌∙◌, Bool, true, false, Option, none, some, List, ◌∷◌, arith, leb,
  if◌then◌else◌,
}
use zylo.Text.{Text, ◌==◌}
use zylo.Text.Equality.{==_refl}
use zylo.Table.Laws.{get-put}
use zylo.Dns.{
  Question, Messages, Dns, Outside, type_a, server_failure, cache_key, get_cache, set_cache,
  forward_or_fail, local_rr, resolved, cached, handle_dns,
}

module _ {Msg : Type 0} where
  -- A lookup after a store gives the stored message up to `ttl` after the store and nothing later,
  -- and a lookup of another key gives what it gave.
  pub get_cache-set_cache :
      (ttl t now : ℕ) (k j : Text) (m : Msg) (s : Dns Msg)
      → (get_cache j now (set_cache ttl k m t s)).0
        ≡ (if k == j then (if leb now (t + ttl) then some m else none) else (get_cache j now s).0)
  unfolding get_cache set_cache
  get_cache-set_cache ttl t now k j m s =
      ground (arith, get-put k j (record { msg = m; expires_at = t + ttl }) s.cache)

module _ {Msg Rr : Type 0} (lib : Messages Msg Rr) (ttl : ℕ)
    (resolver : Option (Text → Option Text)) where
  -- The reply to a query when the cache is not asked.
  abbrev pub answer_of : Outside Msg → Msg → Question → Msg
  answer_of o r q = elim (local_rr lib ttl resolver q) [
    | some rr ↦ lib.add_answer rr (lib.set_reply r)
    | none ↦ elim o.answer [
      | some resp ↦ resp
      | none ↦ lib.set_rcode server_failure (lib.set_reply r)
    ]
  ]

  -- The resolver knows the name, or the external server answers.
  abbrev pub has_answer : Outside Msg → Question → Bool
  has_answer o q = elim (local_rr lib ttl resolver q) [
    | some rr ↦ true
    | none ↦ elim o.answer [ some resp ↦ true | none ↦ false ]
  ]

  pub has_local :
      (o : Outside Msg) (q : Question) (rr : Rr)
      → local_rr lib ttl resolver q ≡ some rr
      → has_answer o q ≡ true
  has_local o q rr e = ground arith

  resolved-stores :
      (o : Outside Msg) (r : Msg) (q : Question) (s : Dns Msg)
      → has_answer o q ≡ true
      → resolved lib ttl resolver o r q (local_rr lib ttl resolver q) s
        ≡ (answer_of o r q, set_cache ttl (cache_key q) (answer_of o r q) o.later s)
  unfolding forward_or_fail
  resolved-stores o r q s h = ground arith

  resolved-reply :
      (o : Outside Msg) (r : Msg) (q : Question) (s : Dns Msg)
      → (resolved lib ttl resolver o r q (local_rr lib ttl resolver q) s).0 ≡ answer_of o r q
  unfolding forward_or_fail
  resolved-reply o r q s = ground arith

  -- A query for an address is answered from the cache where there is an entry, and otherwise anew.
  handle_dns-a :
      (o : Outside Msg) (r : Msg) (q : Question) (qs : List Question) (s : Dns Msg)
      → lib.questions r ≡ q ∷ qs
      → q.qtype ≡ type_a
      → handle_dns lib ttl resolver o r s ≡ (
          let (found, t) = get_cache (cache_key q) o.now s in cached lib ttl resolver o r q found t)
  unfolding handle_dns
  handle_dns-a o r q qs s hq ha = rw (hq, ha) refl

  abbrev or_else : Option Msg → Msg → Msg
  or_else none m = m
  or_else (some n) m = n

  cached-reply :
      (o : Outside Msg) (r : Msg) (q : Question) (found : Option Msg) (s : Dns Msg)
      → (cached lib ttl resolver o r q found s).0 ≡ or_else found (answer_of o r q)
  cached-reply o r q none s = resolved-reply o r q s
  cached-reply o r q (some m) s = refl

  -- A query for an address that no entry answers, but the resolver or the external server does, is
  -- followed by a second query for the same name and type: up to `ttl` after the reply was stored the
  -- second reply is the first one, whatever the resolver and the server would say, and later the
  -- second query is answered anew.
  pub repeated_query :
      (o p : Outside Msg) (r r' : Msg) (q : Question) (qs qs' : List Question) (s : Dns Msg)
      → lib.questions r ≡ q ∷ qs
      → lib.questions r' ≡ q ∷ qs'
      → q.qtype ≡ type_a
      → (get_cache (cache_key q) o.now s).0 ≡ none
      → has_answer o q ≡ true
      → (handle_dns lib ttl resolver p r' (handle_dns lib ttl resolver o r s).1).0
        ≡ (if leb p.now (o.later + ttl) then answer_of o r q else answer_of p r' q)
  repeated_query o p r r' q qs qs' s hr hr' ha miss known =
      let t = (get_cache (cache_key q) o.now s).1 in
      let m = answer_of o r q in
      let stored = set_cache ttl (cache_key q) m o.later t in
      let first : handle_dns lib ttl resolver o r s ≡ (m, stored) =
        handle_dns-a o r q qs s hr ha ∙ rw miss (resolved-stores o r q t known) in
      let second = handle_dns-a p r' q qs' stored hr' ha in
      let look = get_cache-set_cache ttl o.later p.now (cache_key q) (cache_key q) m t in
      rw (first, second)
        (cached-reply p r' q (get_cache (cache_key q) p.now stored).0
            (get_cache (cache_key q) p.now stored).1
          ∙ rw (look, ==_refl (cache_key q)) (by_age (leb p.now (o.later + ttl))))
    where
      by_age :
          (b : Bool)
          → or_else
              (if true
                then (if b then some (answer_of o r q) else none)
                else (get_cache (cache_key q) p.now (get_cache (cache_key q) o.now s).1).0)
              (answer_of p r' q)
            ≡ (if b then answer_of o r q else answer_of p r' q)
      by_age true = refl
      by_age false = refl

leb-true : (a b : ℕ) → a ≤ b → leb a b ≡ true
leb-true a b h = ground arith

-- The identifier of a message, which SetReply copies from the query and the additions keep, and
-- which Client.Exchange checks.
pub record KeepsId {Msg Rr : Type 0} (lib : Messages Msg Rr) (id : Msg → ℕ) : Type 0 where
  pub reply : (r : Msg) → id (lib.set_reply r) ≡ id r
  pub answer : (rr : Rr) (m : Msg) → id (lib.add_answer rr m) ≡ id m

module _ {Msg Rr : Type 0} (lib : Messages Msg Rr) (ttl : ℕ)
    (resolver : Option (Text → Option Text)) (id : Msg → ℕ) where
  -- The second of two queries for one address, where the resolver answers the first and the reply is
  -- still in the cache: what it is sent has the identifier of the first query, not its own.
  repeated_query-id :
      (o p : Outside Msg) (r r' : Msg) (q : Question) (qs qs' : List Question) (rr : Rr)
      (s : Dns Msg)
      → KeepsId lib id
      → lib.questions r ≡ q ∷ qs
      → lib.questions r' ≡ q ∷ qs'
      → q.qtype ≡ type_a
      → (get_cache (cache_key q) o.now s).0 ≡ none
      → local_rr lib ttl resolver q ≡ some rr
      → p.now ≤ o.later + ttl
      → id (handle_dns lib ttl resolver p r' (handle_dns lib ttl resolver o r s).1).0 ≡ id r
  repeated_query-id o p r r' q qs qs' rr s keeps hr hr' ha miss known fresh =
      let again =
        repeated_query lib ttl resolver o p r r' q qs qs' s hr hr' ha miss
          (has_local lib ttl resolver o q rr known) in
      ground (
        arith,
        again,
        keeps.answer rr (lib.set_reply r),
        keeps.reply r,
        leb-true p.now (o.later + ttl) fresh,
      )
