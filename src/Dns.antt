-- ===== src/Dns.antt =====
-- network/dns: the server of names of one network, with its cache.
pub mod Cache
pub mod Answers
pub mod Runs
mod Examples
use zylo.Prelude.{
  ℕ, ◌+◌, Bool, true, false, not, Option, none, some, List, [], ◌∷◌, ◌++◌, any, leb, eqb,
  if◌then◌else◌,
}
use zylo.Text.{Text, ◌==◌, codes, decimal}
use zylo.Table.{Table, get, put, remove}

-- dns.Question
pub record Question : Type 0 where
  pub name : Text
  pub qtype : ℕ
  pub qclass : ℕ

-- What the code uses of the package github.com/miekg/dns: SetReply, the field Question, the field
-- Rcode, the append to the field Answer, and NewRR. Msg.Copy gives an equal message.
pub record Messages (Msg Rr : Type 0) : Type 0 where
  pub set_reply : Msg → Msg
  pub questions : Msg → List Question
  pub set_rcode : ℕ → Msg → Msg
  pub add_answer : Rr → Msg → Msg
  pub new_rr : Text → Option Rr

-- dns.TypeA, dns.RcodeFormatError and dns.RcodeServerFailure
abbrev pub type_a : ℕ
type_a = 1

abbrev pub format_error : ℕ
format_error = 1

abbrev pub server_failure : ℕ
server_failure = 2

pub record CacheEntry (Msg : Type 0) : Type 0 where
  pub msg : Msg
  pub expires_at : ℕ

-- The cache, and the keys for which a goroutine `go d.deleteCache(key)` has not run yet.
pub record Dns (Msg : Type 0) : Type 0 where
  pub cache : Table (CacheEntry Msg)
  pub deleting : List Text

-- The times at which a query is handled and at which its reply is stored, and what the external
-- server answers: nothing where the exchange fails.
pub record Outside (Msg : Type 0) : Type 0 where
  pub now : ℕ
  pub later : ℕ
  pub answer : Option Msg

-- strings.TrimSuffix(name, ".")
unfoldable pub trim_dot : Text → Text
trim_dot [] = []
trim_dot (c ∷ []) = if eqb c b'.' then [] else c ∷ []
trim_dot (c ∷ d ∷ s) = c ∷ trim_dot (d ∷ s)

-- fmt.Sprintf("%s:%d", q.Name, q.Qtype)
unfoldable pub cache_key : Question → Text
cache_key q = q.name ++ b':' ∷ decimal q.qtype

module _ {Msg : Type 0} where
  -- `time.Now().After(entry.expiresAt)` is strict.
  abbrev pub look : Text → ℕ → Option (CacheEntry Msg) → Dns Msg → Option Msg × Dns Msg
  look key now none s = (none, s)
  look key now (some e) s =
      if leb now e.expires_at
      then (some e.msg, s)
      else (none, record s { deleting = key ∷ s.deleting })

  unfoldable pub get_cache : Text → ℕ → Dns Msg → Option Msg × Dns Msg
  get_cache key now s = look key now (get key s.cache) s

  -- `ttl` is `cacheTTL`.
  unfoldable pub set_cache : ℕ → Text → Msg → ℕ → Dns Msg → Dns Msg
  set_cache ttl key m now s = record s {
    cache = put key (record { msg = m; expires_at = now + ttl }) s.cache;
  }

  -- A goroutine that was started deletes its key, at some later time.
  unfoldable pub delete_cache : Text → Dns Msg → Dns Msg
  delete_cache key s =
      if any (λ k. k == key) s.deleting then record s { cache = remove key s.cache } else s

module _ {Msg Rr : Type 0} (lib : Messages Msg Rr) (ttl : ℕ)
    (resolver : Option (Text → Option Text)) where
  -- The answer of the resolver of container names, where there is one and it knows the name.
  abbrev pub local_ip : Question → Option Text
  local_ip q = elim resolver [ none ↦ none | some f ↦ f (trim_dot q.name) ]

  abbrev pub local_rr : Question → Option Rr
  local_rr q = elim (local_ip q) [
    | none ↦ none
    | some ip ↦ lib.new_rr (q.name ++ (codes " IN A " ++ ip))
  ]

  abbrev pub forwarded : Outside Msg → Msg → Question → Option Msg → Dns Msg → Msg × Dns Msg
  forwarded o r q none s = (lib.set_rcode server_failure (lib.set_reply r), s)
  forwarded o r q (some resp) s = (resp, set_cache ttl (cache_key q) resp o.later s)

  unfoldable pub forward_or_fail : Outside Msg → Msg → Question → Dns Msg → Msg × Dns Msg
  forward_or_fail o r q s = forwarded o r q o.answer s

  abbrev pub resolved : Outside Msg → Msg → Question → Option Rr → Dns Msg → Msg × Dns Msg
  resolved o r q none s = forward_or_fail o r q s
  resolved o r q (some rr) s =
      let m = lib.add_answer rr (lib.set_reply r) in (m, set_cache ttl (cache_key q) m o.later s)

  abbrev pub cached : Outside Msg → Msg → Question → Option Msg → Dns Msg → Msg × Dns Msg
  cached o r q (some m) s = (m, s)
  cached o r q none s = resolved o r q (local_rr q) s

  abbrev pub ask : Outside Msg → Msg → Question → Dns Msg → Msg × Dns Msg
  ask o r q s =
      let found = get_cache (cache_key q) o.now s in
      if not (eqb q.qtype type_a) then forward_or_fail o r q s else cached o r q found.0 found.1

  abbrev pub dispatch : Outside Msg → Msg → List Question → Dns Msg → Msg × Dns Msg
  dispatch o r [] s = (lib.set_rcode format_error (lib.set_reply r), s)
  dispatch o r (q ∷ qs) s = ask o r q s

  -- The reply that is written, and the cache afterwards.
  unfoldable pub handle_dns : Outside Msg → Msg → Dns Msg → Msg × Dns Msg
  unfolding get_cache forward_or_fail
  handle_dns o r s = dispatch o r (lib.questions r) s
