-- ===== src/Container/Ports/Free.antt =====
-- arePortsFree of internal/container/ports.go: when it passes.
use zylo.Prelude.{
  ◌≡◌, refl, sym, ap, subst, ◌∙◌, ◌↔◌, Bool, true, false, Option, none, some, List, [], ◌∷◌, ◌++◌,
  ok, arith, All, any-append,
}
use zylo.Text.{Text, split, join}
use zylo.Text.Lines.{Free, split-join, join-split, split-All-Free}
use zylo.Integer.{ℤ, Parsed, int_eq, atoi}
use zylo.Container.{Container, Runtime, list_containers}
use zylo.Container.Ports.{
  host_part, check_number, host_port, add_port, ports_of, used_ports, is_used, check_ports,
  are_ports_free,
}

-- The entry is two texts with one colon between them, and Atoi says this of the first.
pub record Reads (p : Text) (n : Parsed) : Type 0 where
  pub host : Text
  pub port : Text
  pub joined : p ≡ host ++ b':' ∷ port
  pub host_free : Free b':' host
  pub port_free : Free b':' port
  pub parsed : atoi host ≡ n

text_or : Option Text → Text
text_or none = []
text_or (some t) = t

part_of : {a b : Text} → ◌≡◌ {A = Option Text} (some a) (some b) → a ≡ b
unfolding text_or
part_of h = ap text_or h

parsed_or : Parsed → Option Parsed → Parsed
parsed_or d none = d
parsed_or d (some n) = n

two_parts :
    (ls : List Text) {host : Text}
    → host_part ls ≡ some host
    → (port : Text) × (ls ≡ host ∷ port ∷ [])
two_parts [] h = absurd (cc)
two_parts (a ∷ []) h = absurd (cc)
two_parts (a ∷ b ∷ []) h = (b, ap (λ x. x ∷ b ∷ []) (part_of h))
two_parts (a ∷ b ∷ c ∷ ls) h = absurd (cc)

host_port-Reads : (p : Text) {n : Parsed} → host_port p ≡ some n → Reads p n
unfolding host_port join parsed_or
host_port-Reads p {n} h = go (host_part (split b':' p)) refl h
  where
    go :
        (o : Option Text)
        → host_part (split b':' p) ≡ o
        → ◌≡◌ {A = Option Parsed} (elim o [ none ↦ none | some host ↦ some (atoi host) ]) (some n)
        → Reads p n
    go none e g = absurd (cc)
    go (some host) e g =
        let (port, parts) = two_parts (split b':' p) e in
        let free = subst (All (Free b':')) parts (split-All-Free b':' p) in
        record {
          host = host;
          port = port;
          joined = sym (join-split b':' p) ∙ ap (join b':') parts;
          host_free = free.0;
          port_free = free.1.0;
          parsed = ap (parsed_or n) g;
        }

Reads-host_port : (p : Text) {n : Parsed} → Reads p n → host_port p ≡ some n
unfolding host_port join
Reads-host_port p r =
    let parts : split b':' p ≡ r.host ∷ r.port ∷ [] =
      ap (split b':') r.joined
      ∙ split-join b':' (r.host ∷ r.port ∷ []) (ground arith) (r.host_free, (r.port_free, tt)) in
    rw (host_port, parts) (ap some r.parsed)

-- None of the entries reads as the number.
abbrev pub NoneReads : ℤ → List Text → Type 0
NoneReads number ps = All (λ q. (m : Parsed) → Reads q m → int_eq m.value number ≡ false) ps

same_reading : (p : Text) {n m : Parsed} → host_port p ≡ some n → Reads p m → m ≡ n
unfolding parsed_or
same_reading p {n} {m} e r = ap (parsed_or n) (sym (Reads-host_port p r) ∙ e)

module _ (number : ℤ) (p : Text) (ps : List Text)
    (rest : (is_used (ports_of ps) number ≡ false) ↔ NoneReads number ps) where
  add_port-NoneReads :
      (o : Option Parsed)
      → host_port p ≡ o
      → (is_used (add_port o (ports_of ps)) number ≡ false) ↔ NoneReads number (p ∷ ps)
  add_port-NoneReads none e =
      (λ h. (λ m r. absurd (some_none (sym (Reads-host_port p r) ∙ e)), rest.0 h), λ f. rest.1 f.1)
    where
      some_none : {m : Parsed} → ◌≡◌ {A = Option Parsed} (some m) none → ⊥
      some_none g = cc
  add_port-NoneReads (some n) e = (
    λ h. (
      λ m r. ap (λ x. int_eq x.value number) (same_reading p e r) ∙ ground arith,
      rest.0 (ground arith),
    ),
    λ f. let a = f.0 n (host_port-Reads p e) in let b = rest.1 f.1 in ground arith,
  )

ports_of-NoneReads :
    (number : ℤ) (ps : List Text) → (is_used (ports_of ps) number ≡ false) ↔ NoneReads number ps
unfolding ports_of
ports_of-NoneReads number [] = (λ h. tt, λ h. refl)
ports_of-NoneReads number (p ∷ ps) =
    add_port-NoneReads number p ps (ports_of-NoneReads number ps) (host_port p) refl

used_ports-NoneReads :
    (number : ℤ) (cs : List Container)
    → (is_used (used_ports cs) number ≡ false) ↔ All (λ c. NoneReads number c.ports) cs
unfolding used_ports
used_ports-NoneReads number [] = (λ h. tt, λ h. refl)
used_ports-NoneReads number (c ∷ cs) =
    let first = ports_of-NoneReads number c.ports in
    let rest = used_ports-NoneReads number cs in
    let both = any-append (λ m. int_eq m number) (ports_of c.ports) (used_ports cs) in
    (
      λ h. (first.0 (ground (arith, both)), rest.0 (ground (arith, both))),
      λ h. let a = first.1 h.0 in let b = rest.1 h.1 in ground (arith, both),
    )

-- An entry names a port as a number, where nothing listens, and no entry of a container names it.
pub record IsFree (listening : ℤ → Bool) (cs : List Container) (p : Text) : Type 0 where
  pub number : ℤ
  pub reads : Reads p (record { value = number; is_ok = true })
  pub quiet : listening number ≡ false
  pub unused : All (λ c. NoneReads number c.ports) cs

module _ (listening : ℤ → Bool) (cs : List Container) where
  number-IsFree :
      (p : Text) (o : Option Parsed)
      → host_port p ≡ o
      → check_number listening (used_ports cs) o ≡ ok tt
      → IsFree listening cs p
  number-IsFree p none e h = cc
  number-IsFree p (some n) e h = record {
    number = n.value;
    reads = host_port-Reads p (ground arith);
    quiet = ground arith;
    unused = (used_ports-NoneReads n.value cs).0 (ground arith);
  }

  free_number :
      (p : Text)
      → IsFree listening cs p
      → check_number listening (used_ports cs) (host_port p) ≡ ok tt
  free_number p f =
      rw (Reads-host_port p f.reads)
        (ground (arith, f.quiet, (used_ports-NoneReads f.number cs).1 f.unused))

  check_ports-IsFree :
      (ports : List Text)
      → (check_ports listening (used_ports cs) ports ≡ ok tt) ↔ All (IsFree listening cs) ports
  unfolding check_ports
  check_ports-IsFree [] = (λ h. tt, λ h. refl)
  check_ports-IsFree (p ∷ ps) =
      let rest = check_ports-IsFree ps in
      (
        λ h. (number-IsFree p (host_port p) refl (ground arith), rest.0 (ground arith)),
        λ f. rw (free_number p f.0) (rest.1 f.1),
      )

-- The check passes exactly when every requested entry is two texts with one colon between them, of
-- which the first is a number, where nothing listens at that number and no entry of a container, read
-- in the same way, gives it.
pub are_ports_free_iff :
    (listening : ℤ → Bool) (ports : List Text) (s : Runtime)
    → (are_ports_free listening ports s ≡ ok tt) ↔ All (IsFree listening (list_containers s)) ports
unfolding are_ports_free
are_ports_free_iff listening ports s = check_ports-IsFree listening (list_containers s) ports
