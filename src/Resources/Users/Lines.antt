-- ===== src/Resources/Users/Lines.antt =====
-- internal/container/resources/users.go: the lines of passwd, read back.
use zylo.Prelude.{
  ℕ, suc, ◌≡◌, ◌≢◌, refl, ◌∙◌, ap, true, false, List, [], ◌∷◌, ◌++◌, ok, arith, any-append, map,
  All, eqb, append-nil, append_assoc, Bool-cases, inl, inr,
}
use mathlib.Core.List.{map-append}
use zylo.Text.{Text, split, join, push}
use zylo.Text.Lines.{Free, split-append, split-join}
use zylo.Disk.{TextWrite, whole}
use zylo.Resources.Users.{
  User, UserManager, EtcFiles, WriteFate, user_fields, passwd_line, append_lines, write_files,
}

abbrev concat : List Text → Text
concat [] = []
concat (l ∷ ls) = l ++ concat ls

append_lines_whole :
    (w : ℕ → TextWrite) (n : ℕ) (ls : List Text) (text : Text)
    → ((k : ℕ) → w k ≡ whole)
    → append_lines w n ls text ≡ (ok tt, text ++ concat ls)
unfolding append_lines
append_lines_whole w n [] text h = rw (append-nil text) refl
append_lines_whole w n (l ∷ ls) text h =
    rw (h n)
      (append_lines_whole w (suc n) ls (text ++ l) h ∙ rw (append_assoc text l (concat ls)) refl)

push-ne-nil : (c : ℕ) (ls : List Text) → push c ls ≢ []
push-ne-nil c [] = λ e. cc
push-ne-nil c (l ∷ ls) = λ e. cc

push-append : (c : ℕ) (ls ms : List Text) → ls ≢ [] → push c (ls ++ ms) ≡ push c ls ++ ms
push-append c [] ms h = absurd (h refl)
push-append c (l ∷ ls) ms h = refl

-- Lines that are cut at a separator that stands between two texts.
split-ne-nil : (sep : ℕ) (s : Text) → split sep s ≢ []
unfolding split
split-ne-nil sep [] = λ e. cc
split-ne-nil sep (c ∷ s) = ground (arith, push-ne-nil c (split sep s))

split_at :
    (sep : ℕ) (old rest : Text) → split sep (old ++ sep ∷ rest) ≡ split sep old ++ split sep rest
unfolding split
split_at sep [] rest = ground arith
split_at sep (c ∷ old) rest =
    let parts = split sep old in
    ground
      (arith, split_at sep old rest, push-append c parts (split sep rest), split-ne-nil sep old)

-- No field of the entry holds a colon or a line break.
abbrev pub IsPlain : User → Type 0
IsPlain u = All (λ f. Free b':' f × Free 10 f) (user_fields u)

join-Free :
    (sep c : ℕ) (fs : List Text)
    → eqb sep c ≡ false
    → All (λ f. Free sep f × Free c f) fs
    → Free c (join sep fs)
unfolding join
join-Free sep c [] ne h = refl
join-Free sep c (f ∷ []) ne h = h.0.1
join-Free sep c (f ∷ g ∷ fs) ne h =
    rw (any-append (λ d. eqb d c) f (sep ∷ join sep (g ∷ fs)))
      (ground (arith, h.0.1, join-Free sep c (g ∷ fs) ne h.1))

-- The entries that a program reads from a text of passwd.
abbrev pub entries : Text → List (List Text)
entries text = map (split b':') (split 10 text)

plain-fields : (fs : List Text) → All (λ f. Free b':' f × Free 10 f) fs → All (Free b':') fs
plain-fields [] h = tt
plain-fields (f ∷ fs) h = (h.0.0, plain-fields fs h.1)

concat-entries :
    (us : List User)
    → All IsPlain us
    → entries (concat (map passwd_line us)) ≡ map user_fields us ++ ([] ∷ []) ∷ []
unfolding passwd_line
concat-entries [] h = unfold split in refl
concat-entries (u ∷ us) h =
    let line = join b':' (user_fields u) in
    let rest = concat (map passwd_line us) in
    let free = join-Free b':' 10 (user_fields u) refl h.0 in
    rw (append_assoc line (10 ∷ []) rest, split-append 10 line rest free)
      (ap (λ r. split b':' line ∷ r) (concat-entries us h.1)
        ∙ rw (split-join b':' (user_fields u) (λ e. cc) (plain-fields (user_fields u) h.0)) refl)

write_files-passwd :
    (w : WriteFate) (m : UserManager) (s : EtcFiles)
    → w.made ≡ true
    → w.passwd_opened ≡ true
    → ((k : ℕ) → w.user k ≡ whole)
    → (write_files w m s).1.passwd ≡ s.passwd ++ concat (map passwd_line m.users)
unfolding write_files
write_files-passwd w m s made opened h =
    rw (made, opened, append_lines_whole w.user 0 (map passwd_line m.users) s.passwd h)
      (elim (Bool-cases w.group_opened) [ inl e ↦ rw e refl | inr e ↦ rw e refl ])

-- Where the directory and passwd can be opened and its lines are written, and no field of a user holds
-- a colon or a line break, a reader of passwd finds the entries that the image had, in a file whose
-- last line is ended, then one entry for each user with its seven fields, and nothing behind,
-- whatever comes of the file of groups.
pub write_files-entries :
    (w : WriteFate) (m : UserManager) (s : EtcFiles) (old : Text)
    → w.made ≡ true
    → w.passwd_opened ≡ true
    → ((k : ℕ) → w.user k ≡ whole)
    → s.passwd ≡ old ++ 10 ∷ []
    → All IsPlain m.users
    → entries (write_files w m s).1.passwd
      ≡ entries old ++ (map user_fields m.users ++ ([] ∷ []) ∷ [])
write_files-entries w m s old made opened h image plain =
    let added = concat (map passwd_line m.users) in
    let text : (write_files w m s).1.passwd ≡ old ++ 10 ∷ added =
      rw (write_files-passwd w m s made opened h, image) (append_assoc old (10 ∷ []) added) in
    ap entries text
    ∙ rw (split_at 10 old added) (
        map-append (split b':') (split 10 old) (split 10 added)
        ∙ ap (λ r. entries old ++ r) (concat-entries m.users plain))
