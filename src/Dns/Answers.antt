-- ===== src/Dns/Answers.antt =====
-- network/dns/resolver.go: to which question a reply answers, over any run of the server.
use zylo.Prelude.{
  ℕ, ◌+◌, ◌≡◌, refl, sym, ap, subst, ◌∙◌, Option, none, some, List, [], ◌∷◌, ◌++◌, arith, leb, eqb,
  any, Bool-cases, inl, inr,
}
use zylo.Text.{Text, ◌==◌, decimal}
use zylo.Text.Equality.{==_sound}
use zylo.Table.Laws.{get-put, get-remove}
use zylo.Text.Decimal.{AllDigits, decimal-AllDigits, decimal_injective}
use zylo.Table.{get}
use zylo.Dns.{
  Question, Messages, Dns, Outside, CacheEntry, type_a, cache_key, get_cache, set_cache,
  delete_cache, forward_or_fail, forwarded, look, server_failure, resolved, cached, ask,
}

abbrev drop_one : Text → Text
drop_one [] = []
drop_one (c ∷ s) = s

digits_no_colon : (b e : Text) → ¬ (AllDigits (b ++ b':' ∷ e))
digits_no_colon [] e h = ground arith
digits_no_colon (c ∷ b) e h = digits_no_colon b e h.1

-- A text with a colon and digits behind it can be cut there in one way.
cut_digits :
    (a b d e : Text) → AllDigits d → AllDigits e → a ++ b':' ∷ d ≡ b ++ b':' ∷ e → (a ≡ b) × (d ≡ e)
cut_digits [] [] d e hd he h = ground arith
cut_digits [] (c ∷ b) d e hd he h =
    absurd (digits_no_colon b e (subst AllDigits (ap drop_one h) hd))
cut_digits (c ∷ a) [] d e hd he h =
    absurd (digits_no_colon a d (subst AllDigits (sym (ap drop_one h)) he))
cut_digits (c ∷ a) (c' ∷ b) d e hd he h = ground (arith, cut_digits a b d e hd he)

-- The questions have one name and one type; their classes may differ.
abbrev pub SameNameAndType : Question → Question → Type 0
SameNameAndType q q' = (q.name ≡ q'.name) × (q.qtype ≡ q'.qtype)

-- The first of the questions has the name and the type of the question.
abbrev pub Answered : Question → List Question → Type 0
Answered q ls =
    (q' : Question) × (rest : List Question) × (ls ≡ q' ∷ rest)
    × (q'.name ≡ q.name)
    × (q'.qtype ≡ q.qtype)

cache_key_injective : (q q' : Question) → cache_key q ≡ cache_key q' → SameNameAndType q q'
unfolding cache_key
cache_key_injective q q' h =
    let cut =
      cut_digits q.name q'.name (decimal q.qtype) (decimal q'.qtype) (decimal-AllDigits q.qtype)
        (decimal-AllDigits q'.qtype) h in
    (cut.0, decimal_injective q.qtype q'.qtype cut.1)

module _ {Msg Rr : Type 0} (lib : Messages Msg Rr) where
  -- The reply has a question of the name and the type of the query's first, and has it first.
  abbrev pub Echoes : Msg → Msg → Type 0
  Echoes r m =
      (q : Question) (qs : List Question) → lib.questions r ≡ q ∷ qs → Answered q (lib.questions m)

  -- SetReply copies the question of the query, of which only the name and the type matter here, and the additions to a message keep its questions.
  pub record KeepsQuestions : Type 0 where
    pub reply : (r : Msg) → Echoes r (lib.set_reply r)
    pub rcode : (c : ℕ) (m : Msg) → lib.questions (lib.set_rcode c m) ≡ lib.questions m
    pub answer : (rr : Rr) (m : Msg) → lib.questions (lib.add_answer rr m) ≡ lib.questions m

  -- Every entry answers the question that its key stands for.
  pub record IsTrue (s : Dns Msg) : Type 0 where
    pub at_key :
        (q : Question) (e : CacheEntry Msg)
        → get (cache_key q) s.cache ≡ some e
        → Answered q (lib.questions e.msg)

  stored_answers :
      (q j : Question) (m : Msg) (expires : ℕ) (e : CacheEntry Msg)
      → SameNameAndType q j
      → Answered q (lib.questions m)
      → ◌≡◌ {A = Option (CacheEntry Msg)} (some (record { msg = m; expires_at = expires })) (some e)
      → Answered j (lib.questions e.msg)
  stored_answers q j m expires e (n, t) (q', rest, same, n', t') g =
      let kept : m ≡ e.msg = ap (msg_or m) g in
      (q', rest, ap lib.questions (sym kept) ∙ same, n' ∙ n, t' ∙ t)
    where
      msg_or : Msg → Option (CacheEntry Msg) → Msg
      msg_or d none = d
      msg_or d (some x) = x.msg

  set_cache-IsTrue :
      (ttl now : ℕ) (q : Question) (m : Msg) (s : Dns Msg)
      → IsTrue s
      → Answered q (lib.questions m)
      → IsTrue (set_cache ttl (cache_key q) m now s)
  unfolding set_cache
  set_cache-IsTrue ttl now q m s h answered = record {
    at_key = λ j entry found.
        let stored : CacheEntry Msg = record { msg = m; expires_at = now + ttl } in
        let got = get-put (cache_key q) (cache_key j) stored s.cache in
        elim (Bool-cases (cache_key q == cache_key j)) [
          | inl same ↦
              stored_answers q j m (now + ttl) entry
                (cache_key_injective q j (==_sound (cache_key q) (cache_key j) same)) answered
                (ground (arith, got))
          | inr other ↦ h.at_key j entry (ground (arith, got))
        ];
  }

  pub delete_cache-IsTrue : (key : Text) (s : Dns Msg) → IsTrue s → IsTrue (delete_cache key s)
  unfolding delete_cache
  delete_cache-IsTrue key s h = elim (Bool-cases (any (λ k. k == key) s.deleting)) [
    | inl e ↦ rw e (record {
      at_key =
          λ j entry found. h.at_key j entry (ground (arith, get-remove key (cache_key j) s.cache));
    })
    | inr e ↦ rw e h
  ]

  -- A reply with the question, and a cache that is true.
  abbrev pub Good : Question → Msg × Dns Msg → Type 0
  Good q p = Answered q (lib.questions p.0) × IsTrue p.1

  look-IsTrue :
      (key : Text) (now : ℕ) (o : Option (CacheEntry Msg)) (s : Dns Msg)
      → IsTrue s
      → IsTrue (look key now o s).1
  look-IsTrue key now none s h = h
  look-IsTrue key now (some e) s h = elim (Bool-cases (leb now e.expires_at)) [
    | inl old ↦ rw old h
    | inr new ↦ rw new (record { at_key = h.at_key })
  ]

  look-question :
      (q : Question) (now : ℕ) (o : Option (CacheEntry Msg)) (s : Dns Msg) (m : Msg)
      → IsTrue s
      → get (cache_key q) s.cache ≡ o
      → (look (cache_key q) now o s).0 ≡ some m
      → Answered q (lib.questions m)
  look-question q now none s m h e found = cc
  look-question q now (some entry) s m h e found =
      let (q', rest, same, n, t) = h.at_key q entry e in (q', rest, ground arith, n, t)

  module _ (ttl : ℕ) (resolver : Option (Text → Option Text)) (laws : KeepsQuestions) where
    forwarded-Good :
        (o : Outside Msg) (r : Msg) (q : Question) (qs : List Question) (a : Option Msg)
        (s : Dns Msg)
        → lib.questions r ≡ q ∷ qs
        → ((m : Msg) → a ≡ some m → Echoes r m)
        → IsTrue s
        → Good q (forwarded lib ttl resolver o r q a s)
    forwarded-Good o r q qs none s hr honest h =
        let (q', rest, same, n, t) = laws.reply r q qs hr in
        ((q', rest, laws.rcode server_failure (lib.set_reply r) ∙ same, n, t), h)
    forwarded-Good o r q qs (some m) s hr honest h =
        let answered = honest m refl q qs hr in
        (answered, set_cache-IsTrue ttl o.later q m s h answered)

    resolved-Good :
        (o : Outside Msg) (r : Msg) (q : Question) (qs : List Question) (a : Option Rr)
        (s : Dns Msg)
        → lib.questions r ≡ q ∷ qs
        → ((m : Msg) → o.answer ≡ some m → Echoes r m)
        → IsTrue s
        → Good q (resolved lib ttl resolver o r q a s)
    unfolding forward_or_fail
    resolved-Good o r q qs none s hr honest h = forwarded-Good o r q qs o.answer s hr honest h
    resolved-Good o r q qs (some rr) s hr honest h =
        let (q', rest, same, n, t) = laws.reply r q qs hr in
        let echoed : Answered q (lib.questions (lib.add_answer rr (lib.set_reply r))) =
          (q', rest, laws.answer rr (lib.set_reply r) ∙ same, n, t) in
        (echoed, set_cache-IsTrue ttl o.later q (lib.add_answer rr (lib.set_reply r)) s h echoed)

    cached-Good :
        (o : Outside Msg) (r : Msg) (q : Question) (qs : List Question) (a : Option Msg)
        (s : Dns Msg)
        → lib.questions r ≡ q ∷ qs
        → ((m : Msg) → o.answer ≡ some m → Echoes r m)
        → ((m : Msg) → a ≡ some m → Answered q (lib.questions m))
        → IsTrue s
        → Good q (cached lib ttl resolver o r q a s)
    cached-Good o r q qs none s hr honest known h = resolved-Good o r q qs _ s hr honest h
    cached-Good o r q qs (some m) s hr honest known h = (known m refl, h)

    pub ask-Good :
        (o : Outside Msg) (r : Msg) (q : Question) (qs : List Question) (s : Dns Msg)
        → lib.questions r ≡ q ∷ qs
        → ((m : Msg) → o.answer ≡ some m → Echoes r m)
        → IsTrue s
        → Good q (ask lib ttl resolver o r q s)
    unfolding get_cache forward_or_fail
    ask-Good o r q qs s hr honest h = elim (Bool-cases (eqb q.qtype type_a)) [
      | inl e ↦ rw e (
          cached-Good o r q qs _ _ hr honest
            (λ m found. look-question q o.now (get (cache_key q) s.cache) s m h refl found)
            (look-IsTrue (cache_key q) o.now (get (cache_key q) s.cache) s h))
      | inr e ↦ rw e (forwarded-Good o r q qs o.answer s hr honest h)
    ]
