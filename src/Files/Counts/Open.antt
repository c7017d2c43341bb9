-- ===== src/Files/Counts/Open.antt =====
-- Opening a file keeps the counts.
use linux.Base.{ℕ, ◌<◌, ◌≡◌, refl, Option, none, some, ◌==◌, arith, Bool-cases, inl, inr}
use linux.Files.{Descriptors, nr_open, file_of, first_free}
use linux.Files.Dup.{first_free-some, get_or-set_self}
use linux.Files.Open.{
  nr_file, first_unused, Named, no_inode, inode_of, keep_on_exec, attach, fill_file, open_named,
  open_file, open_at, sys_open, after_open,
}
use linux.Files.Counts.{Counted, Few, unused-count, attach-Counted, detach-Counted, fill-Counted}

module _ (others : ℕ → ℕ) (few : Few others) where
  -- The state that `open_named` starts from.
  open_named-Counted :
      (flag driver fd f : ℕ) (named : Named) (p : Descriptors)
      → fd < nr_open
      → file_of p fd ≡ some f
      → (p.files f).count ≡ 1
      → Counted others p
      → Counted others (after_open (open_named flag driver fd f named p))
  open_named-Counted flag driver fd f (no_inode e) p small at single c =
      detach-Counted others few fd f p small at single c
  open_named-Counted flag driver fd f (inode_of inode) p small at single c =
      let filled = fill-Counted others few f flag inode p single c in
      elim (Bool-cases (driver == 0)) [
        | inl ok ↦ rw ok filled
        | inr error ↦ rw error (
            detach-Counted others few fd f (fill_file f flag inode p) small at (ground arith)
              filled)
      ]

  open_file-Counted :
      (flag driver fd : ℕ) (named : Named) (p : Descriptors) (slot : Option ℕ)
      → fd < nr_open
      → file_of p fd ≡ none
      → ((f : ℕ) → slot ≡ some f → (p.files f).count ≡ 0)
      → Counted others p
      → Counted others (after_open (open_file flag driver fd named p slot))
  open_file-Counted flag driver fd named p none small free unused c = c
  open_file-Counted flag driver fd named p (some f) small free unused (full, counts) =
      let z = unused f refl in
      open_named-Counted flag driver fd f named (attach fd f p) small
        (get_or-set_self p.filp fd (some f) (omega arith)) (ground (arith, z))
        (attach-Counted others few fd f p small free (full, counts))

  open_at-Counted :
      (flag driver : ℕ) (named : Named) (p : Descriptors) (slot : Option ℕ)
      → ((fd : ℕ) → slot ≡ some fd → (fd < nr_open) × (file_of p fd ≡ none))
      → Counted others p
      → Counted others (after_open (open_at flag driver named p slot))
  open_at-Counted flag driver named p none free c = c
  open_at-Counted flag driver named p (some fd) free c =
      open_file-Counted flag driver fd named (keep_on_exec fd p) (first_unused nr_file 0 p.files)
        (free fd refl).0 (free fd refl).1 (λ f e. unused-count nr_file 0 f p.files e) c

  pub open-Counted :
      (flag driver : ℕ) (named : Named) (p : Descriptors)
      → Counted others p
      → Counted others (after_open (sys_open flag driver named p))
  unfolding sys_open
  open-Counted flag driver named p c =
      open_at-Counted flag driver named p (first_free nr_open 0 p.filp)
        (λ fd e. let r = first_free-some nr_open 0 fd p.filp e in (r.1, r.2)) c
