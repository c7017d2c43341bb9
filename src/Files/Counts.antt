-- ===== src/Files/Counts.antt =====
-- That the counts of the file table are the number of descriptors on each file.
pub mod Open
pub mod Close
use native.Mathlib.Decide.{ℕ_discrete}
use linux.Base.{
  Bool, ℕ, zero, suc, ◌+◌, ◌-◌, ◌^◌, ◌%◌, ◌≤◌, ◌<◌, ◌≡◌, ◌≢◌, refl, sym, ap, ◌∙◌, true, false,
  Option, none, some, List, [], ◌∷◌, get_or, set, length, length-set, leb, ◌==◌, if◌then◌else◌,
  arith, Bool-cases, Option-cases, inl, inr,
}
use linux.Files.{
  Descriptors, File, nr_open, file_of, first_free, change, install, Fcntl, ebadf, dup_to, dup_file,
  dupfd, fcntl_cmd, sys_fcntl,
}
use linux.Files.Dup.{first_free-some, get_or-set_self}
use linux.Files.Open.{
  nr_file, first_unused, Named, no_inode, inode_of, keep_on_exec, attach, detach, fill_file,
  open_named, open_file, open_at, sys_open, Closed, release, close_file, sys_close, after_close,
  sys_dup2, after_fcntl, after_dup2, after_open, FileCall, call_open, call_close, call_dup2,
  call_fcntl, file_call, file_calls,
}

-- The descriptors on the file `f`.
abbrev pub one : ℕ → Option ℕ → ℕ
one f none = 0
one f (some g) = if g == f then 1 else 0

unfoldable pub uses : ℕ → List (Option ℕ) → ℕ
uses f [] = 0
uses f (x ∷ xs) = one f x + uses f xs

pub uses-set :
    (f i : ℕ) (xs : List (Option ℕ)) (v : Option ℕ)
    → i < length xs
    → uses f (set xs i v) + one f (get_or xs i none) ≡ uses f xs + one f v
unfolding uses
uses-set f i [] v h = absurd (omega arith)
uses-set f zero (x ∷ xs) v h = omega arith
uses-set f (suc i) (x ∷ xs) v h = let e = uses-set f i xs v (omega arith) in omega (arith, e)

uses_le : (f : ℕ) (xs : List (Option ℕ)) → uses f xs ≤ length xs
unfolding uses
uses_le f [] = omega arith
uses_le f (none ∷ xs) = let e = uses_le f xs in omega (arith, e)
uses_le f (some g ∷ xs) = let e = uses_le f xs in ground (arith, e)

-- A process has 20 descriptors, and the count of every file is the number of those that are on it and
-- of the uses that others make of it.
abbrev pub Counted : (ℕ → ℕ) → Descriptors → Type 0
Counted others p =
    (length p.filp ≡ nr_open) × ((f : ℕ) → (p.files f).count ≡ uses f p.filp + others f)

-- The other uses leave room in the count.
abbrev pub Few : (ℕ → ℕ) → Type 0
Few others = (f : ℕ) → others f + nr_open < 2 ^ 16

pub unused-count :
    (k i f : ℕ) (files : ℕ → File) → first_unused k i files ≡ some f → (files f).count ≡ 0
unfolding first_unused
unused-count zero i f files e = absurd cc
unused-count (suc k) i f files e = elim (Bool-cases ((files i).count == 0)) [
  | inl free ↦
      let found : some i ≡ some f = rw (first_unused, free) at e in
      let same : i ≡ f = cc in ground (arith, ap (λ g. (files g).count) same, free)
  | inr used ↦ unused-count k (i + 1) f files (rw (first_unused, used) at e)
]

module _ (others : ℕ → ℕ) (few : Few others) where
  -- A descriptor that leads to another file, or to none, with the counts that follow it.
  pub retarget :
      (fd : ℕ) (old v : Option ℕ) (p : Descriptors) (files : ℕ → File)
      → fd < nr_open
      → file_of p fd ≡ old
      → ((g : ℕ) → (files g).count + one g old ≡ (p.files g).count + one g v)
      → Counted others p
      → Counted others (record p { filp = set p.filp fd v; files = files })
  retarget fd old v p files small at moved (full, counts) = (
    length-set p.filp fd v ∙ full,
    λ g.
        let e = uses-set g fd p.filp v (omega arith) in
        let o = ap (one g) at in let m = moved g in let c = counts g in omega (arith, e, o, m, c),
  )

  pub attach-Counted :
      (fd f : ℕ) (p : Descriptors)
      → fd < nr_open
      → file_of p fd ≡ none
      → Counted others p
      → Counted others (attach fd f p)
  attach-Counted fd f p small free (full, counts) =
      retarget fd none (some f) p (attach fd f p).files small free (λ g. moved g) (full, counts)
    where
      room : (p.files f).count + 1 < 2 ^ 16
      room =
          let e = uses-set f fd p.filp (some f) (omega arith) in
          let o : one f (get_or p.filp fd none) ≡ 0 = ap (one f) free in
          let l = uses_le f (set p.filp fd (some f)) in
          let n = length-set p.filp fd (some f) in
          let c = counts f in
          let w = few f in
          let u : one f (some f) ≡ 1 = ground arith in omega (arith, e, o, l, n, c, w, u)

      moved :
          (g : ℕ)
          → (change p.files f
                (record (p.files f) { count = ((p.files f).count + 1) % 2 ^ 16 })
                g).count
              + 0
            ≡ (p.files g).count + one g (some f)
      moved g = elim (ℕ_discrete g f) [
        | yes same ↦ rw same (ground (arith, room))
        | no other ↦ ground arith
      ]

  pub detach-Counted :
      (fd f : ℕ) (p : Descriptors)
      → fd < nr_open
      → file_of p fd ≡ some f
      → (p.files f).count ≡ 1
      → Counted others p
      → Counted others (detach fd f p)
  detach-Counted fd f p small at single c =
      retarget fd (some f) none p (detach fd f p).files small at
        (λ g. elim (ℕ_discrete g f) [
          | yes same ↦ rw same (ground (arith, single))
          | no other ↦ ground arith
        ])
        c

  pub fill-Counted :
      (f flag inode : ℕ) (p : Descriptors)
      → (p.files f).count ≡ 1
      → Counted others p
      → Counted others (fill_file f flag inode p)
  fill-Counted f flag inode p single (full, counts) = (
    full,
    λ g. elim (ℕ_discrete g f) [
      | yes same ↦
          let c : 1 ≡ uses f p.filp + others f = sym single ∙ counts f in
          rw same (ground (arith, c))
      | no other ↦ let c = counts g in ground (arith, c)
    ],
  )
