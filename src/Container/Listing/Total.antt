-- ===== src/Container/Listing/Total.antt =====
-- internal/container/list.go: where the slices of the listings stay inside their texts.
use zylo.Prelude.{
  ℕ, zero, suc, ◌≤◌, ◌≡◌, refl, true, some, List, [], ◌∷◌, ◌++◌, ok, length, All, Bool-cases, inl,
  inr, arith,
}
use zylo.Text.{Text, codes, is_empty}
use zylo.Identifiers.{hash, hash-length}
use zylo.Container.{Container, Runtime, list_containers}
use zylo.Container.Listing.{
  Line, plain, slice_to, shown_name, cells, container_rows, container_table, blank, header, ps,
}

-- A container with an identifier that Hash made after September 2001.
abbrev pub IsHashed : Container → Type 0
IsHashed c = (t : ℕ) × (r : ℕ) × (1000000000 ≤ t) × (c.id ≡ hash t r)

slice_to_total : (n : ℕ) (s : Text) → n ≤ length s → (u : Text) × (slice_to n s ≡ some u)
unfolding slice_to
slice_to_total zero s h = ([], refl)
slice_to_total (suc n) [] h = absurd (omega arith)
slice_to_total (suc n) (c ∷ s) h =
    let (u, e) = slice_to_total n s (omega arith) in (c ∷ u, rw e refl)

shown_name_total : (c : Container) → IsHashed c → (u : Text) × (shown_name c ≡ some u)
shown_name_total c (t, r, h, e) = elim (Bool-cases (is_empty c.name)) [
  | inl n ↦ rw (n, e) (slice_to_total 12 (hash t r) (hash-length t r h))
  | inr n ↦ (c.name, rw n refl)
]

abbrev pub RowsOf : List Container → List Line → Type 0
RowsOf [] ls = ls ≡ []
RowsOf (c ∷ cs) ls =
    (name : Text) × (rest : List Line) × (shown_name c ≡ some name)
    × (ls ≡ cells c name ∷ rest)
    × RowsOf cs rest

container_rows_total :
    (cs : List Container)
    → All IsHashed cs
    → (ls : List Line) × (container_rows cs ≡ some ls) × RowsOf cs ls
unfolding container_rows
container_rows_total [] h = ([], refl, refl)
container_rows_total (c ∷ cs) h =
    let (name, e) = shown_name_total c h.0 in
    let (ls, f, g) = container_rows_total cs h.1 in
    (cells c name ∷ ls, rw (e, f) refl, (name, ls, e, refl, g))

-- What stands on the terminal: a note where there is no container, else a row for each.
abbrev pub Shows : List Container → List Line → Type 0
Shows [] out = out ≡ blank ∷ plain (codes "No live containers.") ∷ blank ∷ []
Shows (c ∷ cs) out =
    (rows : List Line) × (out ≡ blank ∷ header ∷ (rows ++ blank ∷ [])) × RowsOf (c ∷ cs) rows

container_table_total :
    (cs : List Container)
    → All IsHashed cs
    → (out : List Line) × (container_table cs ≡ some (ok out)) × Shows cs out
container_table_total [] h = (_, refl, refl)
container_table_total (c ∷ cs) h =
    let (rows, e, g) = container_rows_total (c ∷ cs) h in
    (blank ∷ header ∷ (rows ++ blank ∷ []), rw e refl, (rows, refl, g))

-- Where every listed container has an identifier of Hash, no slice of `ps` leaves its text, and the
-- terminal shows one row for each container, in order.
pub ps_total :
    (s : Runtime)
    → All IsHashed (list_containers s)
    → (out : List Line) × (ps true true s ≡ some (ok out)) × Shows (list_containers s) out
unfolding ps
ps_total s h = container_table_total (list_containers s) h
