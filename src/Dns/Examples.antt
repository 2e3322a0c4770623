-- ===== src/Dns/Examples.antt =====
-- The theorems on the server of names at concrete inputs, with a message type of four fields.
use zylo.Prelude.{ℕ, ◌≡◌, refl, Option, none, some, List, [], ◌∷◌, ◌++◌, if◌then◌else◌}
use zylo.Text.{Text, ◌==◌, codes}
use zylo.Table.{get}
use zylo.Dns.{Question, Messages, Outside, get_cache, forward_or_fail, trim_dot, handle_dns}
use zylo.Dns.Cache.{KeepsId, repeated_query}
use zylo.Dns.Answers.{Echoes, KeepsQuestions}
use zylo.Dns.Runs.{query, delete, run, new_dns, run-Echoes}

record Message : Type 0 where
  id : ℕ
  question : List Question
  rcode : ℕ
  answers : List Text

abbrev messages : Messages Message Text
messages = record {
  set_reply = λ r. record { id = r.id; question = r.question; rcode = 0; answers = [] };
  questions = λ m. m.question;
  set_rcode = λ c m. record m { rcode = c };
  add_answer = λ rr m. record m { answers = m.answers ++ rr ∷ [] };
  new_rr = λ line. some line;
}

messages-KeepsId : KeepsId messages (λ m. m.id)
messages-KeepsId = record { reply = λ r. refl; answer = λ rr m. refl }

messages-KeepsQuestions : KeepsQuestions messages
messages-KeepsQuestions = record {
  reply = λ r q qs e. (q, qs, e, refl, refl);
  rcode = λ c m. refl;
  answer = λ rr m. refl;
}

abbrev web : Question
web = record { name = codes "web."; qtype = 1; qclass = 1 }

abbrev first : Message
first = record { id = 7; question = web ∷ []; rcode = 0; answers = [] }

abbrev second : Message
second = record { id = 8; question = web ∷ []; rcode = 0; answers = [] }

abbrev names : Option (Text → Option Text)
names = some (λ name. if name == codes "web" then some (codes "10.20.1.2") else none)

abbrev at : ℕ → Outside Message
at t = record { now = t; later = t; answer = none }

abbrev reply : Message
reply = record first { answers = codes "web. IN A 10.20.1.2" ∷ [] }

resolved_now : (handle_dns messages 30 names (at 100) first new_dns).0 ≡ reply
unfolding handle_dns get_cache forward_or_fail get trim_dot ◌==◌
resolved_now = refl

-- The name is cached for thirty seconds.
second_answer :
    (handle_dns messages 30 names
      (at 110)
      second
      (handle_dns messages 30 names (at 100) first new_dns).1).0
    ≡ reply
unfolding get_cache get trim_dot ◌==◌
second_answer =
    repeated_query messages 30 names (at 100) (at 110) first second web [] [] new_dns refl refl refl
      refl refl

run-Echoes_example :
    Echoes messages second
      (handle_dns messages 30 names
        (at 110)
        second
        (run messages 30 names (query (at 100) first ∷ delete (codes "web.:1") ∷ []) new_dns)).0
run-Echoes_example =
    run-Echoes messages 30 names (query (at 100) first ∷ delete (codes "web.:1") ∷ []) (at 110)
      second messages-KeepsQuestions ((λ m e. cc), (tt, tt)) (λ m e. cc)
