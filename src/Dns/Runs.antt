-- ===== src/Dns/Runs.antt =====
-- network/dns: the server over any sequence of queries and deletions.
use zylo.Prelude.{ℕ, ◌≡◌, refl, Option, some, List, [], ◌∷◌, All}
use zylo.Text.{Text}
use zylo.Table.{get}
use zylo.Dns.{Question, Messages, Dns, Outside, delete_cache, dispatch, handle_dns}
use zylo.Dns.Answers.{Echoes, KeepsQuestions, IsTrue, ask-Good, delete_cache-IsTrue}

-- The server handles a query, or a goroutine that was started deletes its key.
pub data Event (Msg : Type 0) : Type 0 where
  query : Outside Msg → Msg → Event Msg
  delete : Text → Event Msg

module _ {Msg Rr : Type 0} (lib : Messages Msg Rr) (ttl : ℕ)
    (resolver : Option (Text → Option Text)) where
  unfoldable pub step : Event Msg → Dns Msg → Dns Msg
  unfolding handle_dns delete_cache
  step (query o r) s = (handle_dns lib ttl resolver o r s).1
  step (delete key) s = delete_cache key s

  unfoldable pub run : List (Event Msg) → Dns Msg → Dns Msg
  unfolding step
  run [] s = s
  run (e ∷ es) s = run es (step e s)

  -- What the external server answers has a question of the name and the type that it was asked for.
  abbrev pub Honest : Outside Msg → Msg → Type 0
  Honest o r = (m : Msg) → o.answer ≡ some m → Echoes lib r m

  abbrev pub HonestEvent : Event Msg → Type 0
  HonestEvent (query o r) = Honest o r
  HonestEvent (delete key) = Unit

  module _ (laws : KeepsQuestions lib) where
    dispatch-IsTrue :
        (o : Outside Msg) (r : Msg) (qs : List Question) (s : Dns Msg)
        → lib.questions r ≡ qs
        → Honest o r
        → IsTrue lib s
        → IsTrue lib (dispatch lib ttl resolver o r qs s).1
    dispatch-IsTrue o r [] s hr honest h = h
    dispatch-IsTrue o r (q ∷ qs) s hr honest h =
        (ask-Good lib ttl resolver laws o r q qs s hr honest h).1

    step-IsTrue :
        (e : Event Msg) (s : Dns Msg) → HonestEvent e → IsTrue lib s → IsTrue lib (step e s)
    unfolding step handle_dns
    step-IsTrue (query o r) s honest h = dispatch-IsTrue o r (lib.questions r) s refl honest h
    step-IsTrue (delete key) s honest h = delete_cache-IsTrue lib key s h

    run-IsTrue :
        (es : List (Event Msg)) (s : Dns Msg)
        → All HonestEvent es
        → IsTrue lib s
        → IsTrue lib (run es s)
    unfolding run
    run-IsTrue [] s honest h = h
    run-IsTrue (e ∷ es) s honest h = run-IsTrue es (step e s) honest.1 (step-IsTrue e s honest.0 h)

    handle_dns-Echoes :
        (o : Outside Msg) (r : Msg) (s : Dns Msg)
        → Honest o r
        → IsTrue lib s
        → Echoes lib r (handle_dns lib ttl resolver o r s).0
    unfolding handle_dns
    handle_dns-Echoes o r s honest h q qs hr =
        rw hr (ask-Good lib ttl resolver laws o r q qs s hr honest h).0

abbrev pub new_dns : {Msg : Type 0} → Dns Msg
new_dns = record { cache = []; deleting = [] }

new_dns-IsTrue : {Msg Rr : Type 0} (lib : Messages Msg Rr) → IsTrue lib new_dns
unfolding get
new_dns-IsTrue lib = record { at_key = λ q e found. cc }

-- A server that starts with an empty cache, where SetReply copies the question and the external
-- server answers the name and the type that it is asked for: after any queries and any late deletions
-- of keys, at any times, the reply to a query with a question has a question of the same name and the
-- same type first. Its class may be another, since the key of the cache leaves the class out.
pub run-Echoes :
    {Msg Rr : Type 0} (lib : Messages Msg Rr) (ttl : ℕ) (resolver : Option (Text → Option Text))
    (es : List (Event Msg)) (o : Outside Msg) (r : Msg)
    → KeepsQuestions lib
    → All (HonestEvent lib ttl resolver) es
    → Honest lib ttl resolver o r
    → Echoes lib r (handle_dns lib ttl resolver o r (run lib ttl resolver es new_dns)).0
run-Echoes lib ttl resolver es o r laws past honest =
    handle_dns-Echoes lib ttl resolver laws o r (run lib ttl resolver es new_dns) honest
      (run-IsTrue lib ttl resolver laws es new_dns past (new_dns-IsTrue lib))
