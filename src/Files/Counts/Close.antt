-- ===== src/Files/Counts/Close.antt =====
-- Closing and duplicating descriptors keeps the counts, and so does every sequence of calls.
use native.Mathlib.Decide.{ℕ_discrete}
use linux.Base.{
  Bool, ℕ, ◌-◌, ◌≤◌, ◌<◌, ◌≡◌, refl, ap, ◌∙◌, true, false, Option, none, some, List, [], ◌∷◌,
  get_or, leb, ◌==◌, if◌then◌else◌, arith, Bool-cases, inl, inr,
}
use linux.Files.{
  Descriptors, nr_open, file_of, first_free, change, Fcntl, ebadf, dup_to, dup_file, dupfd,
  fcntl_cmd, sys_fcntl,
}
use linux.Files.Dup.{first_free-some}
use linux.Files.Open.{
  keep_on_exec, close_file, sys_close, after_close, sys_dup2, after_fcntl, after_dup2, FileCall,
  call_open, call_close, call_dup2, call_fcntl, file_call, file_calls,
}
use linux.Files.Counts.Open.{open-Counted}
use linux.Files.Counts.{one, uses-set, Counted, Few, retarget, attach-Counted}

module _ (others : ℕ → ℕ) (few : Few others) where
  -- What a call leaves, if the kernel does not panic in it.
  abbrev Survives : Option Descriptors → Type 0
  Survives none = ⊥
  Survives (some p) = Counted others p

  close_file-Survives :
      (fd : ℕ) (p : Descriptors) (slot : Option ℕ)
      → fd < nr_open
      → file_of p fd ≡ slot
      → Counted others p
      → Survives (after_close (close_file fd p slot))
  close_file-Survives fd p none small at c = c
  close_file-Survives fd p (some f) small at (full, counts) =
      elim (Bool-cases ((p.files f).count == 0)) [
        | inl zeroed ↦ absurd (ground (arith, used))
        | inr counted ↦ rw counted (
            retarget others few fd (some f) none p
              (change p.files f (record (p.files f) { count = (p.files f).count - 1 })) small at
              (λ g. elim (ℕ_discrete g f) [
                | yes same ↦ rw same (ground (arith, used))
                | no other ↦ ground arith
              ])
              (full, counts))
      ]
    where
      used : 1 ≤ (p.files f).count
      used =
          let e = uses-set f fd p.filp none (omega arith) in
          let o : one f (get_or p.filp fd none) ≡ 1 = ap (one f) at ∙ ground arith in
          let c = counts f in omega (arith, e, o, c)

  close-Survives :
      (fd : ℕ) (p : Descriptors) → Counted others p → Survives (after_close (sys_close fd p))
  unfolding sys_close
  close-Survives fd p c = elim (Bool-cases (leb nr_open fd)) [
    | inl big ↦ rw big c
    | inr small ↦
        rw small (close_file-Survives fd (keep_on_exec fd p) (file_of p fd) (ground arith) refl c)
  ]

  -- The same of the calls of fs/fcntl.c.
  abbrev Fine : Descriptors → Fcntl → Type 0
  Fine p r = Counted others (after_fcntl p r)

  dup_to-Fine :
      (f : ℕ) (p : Descriptors) (slot : Option ℕ)
      → ((n : ℕ) → slot ≡ some n → (n < nr_open) × (file_of p n ≡ none))
      → Counted others p
      → Fine p (dup_to f p slot)
  dup_to-Fine f p none free c = c
  dup_to-Fine f p (some n) free c =
      attach-Counted others few n f (keep_on_exec n p) (free n refl).0 (free n refl).1 c

  dup_file-Fine :
      (arg : ℕ) (p : Descriptors) (file : Option ℕ)
      → Counted others p
      → Fine p (dup_file arg p file)
  dup_file-Fine arg p none c = c
  dup_file-Fine arg p (some f) c = elim (Bool-cases (leb nr_open arg)) [
    | inl big ↦ rw big c
    | inr small ↦ rw small (
        dup_to-Fine f p (first_free (nr_open - arg) arg p.filp)
          (λ n e.
            let r = first_free-some (nr_open - arg) arg n p.filp e in
            (ground (arith, r.1, small), r.2))
          c)
  ]

  dupfd-Fine : (fd arg : ℕ) (p : Descriptors) → Counted others p → Fine p (dupfd fd arg p)
  unfolding dupfd
  dupfd-Fine fd arg p c = elim (Bool-cases (leb nr_open fd)) [
    | inl big ↦ rw big c
    | inr small ↦ rw small (dup_file-Fine arg p (file_of p fd) c)
  ]

  if-Fine :
      (b : Bool) (p : Descriptors) (x y : Fcntl) → Fine p x → Fine p y → Fine p (if b then x else y)
  if-Fine true p x y h k = h
  if-Fine false p x y h k = k

  fcntl_cmd-Fine :
      (cmd fd arg f : ℕ) (p : Descriptors) → Counted others p → Fine p (fcntl_cmd cmd fd arg f p)
  unfolding fcntl_cmd
  fcntl_cmd-Fine cmd fd arg f p c = if-Fine (cmd == 0) p _ _ (dupfd-Fine fd arg p c) (
      if-Fine (cmd == 1) p _ _ c (
        if-Fine (cmd == 2) p _ _ c (
          if-Fine (cmd == 3) p _ _ c (
            if-Fine (cmd == 4) p _ _
              (
                c.0,
                λ g. elim (ℕ_discrete g f) [
                  | yes same ↦ let k = c.1 f in rw same (ground (arith, k))
                  | no other ↦ let k = c.1 g in ground (arith, k)
                ],
              )
              (if-Fine (leb cmd 7) p _ _ c c)))))

  fcntl-Fine :
      (fd cmd arg : ℕ) (p : Descriptors) → Counted others p → Fine p (sys_fcntl fd cmd arg p)
  unfolding sys_fcntl
  fcntl-Fine fd cmd arg p c = elim (Bool-cases (leb nr_open fd)) [
    | inl big ↦ rw big c
    | inr small ↦ rw small (open_fcntl (file_of p fd))
  ]
    where
      open_fcntl :
          (slot : Option ℕ)
          → Fine p (elim slot [ none ↦ ebadf | some f ↦ fcntl_cmd cmd fd arg f p ])
      open_fcntl none = c
      open_fcntl (some f) = fcntl_cmd-Fine cmd fd arg f p c

  dup2-Survives :
      (oldfd newfd : ℕ) (p : Descriptors)
      → Counted others p
      → Survives (after_dup2 (sys_dup2 oldfd newfd p))
  unfolding sys_dup2
  dup2-Survives oldfd newfd p c = elim (Bool-cases (newfd == oldfd)) [
    | inl same ↦ rw same c
    | inr other ↦
        rw other (closed_then (after_close (sys_close newfd p)) (close-Survives newfd p c))
  ]
    where
      closed_then :
          (r : Option Descriptors)
          → Survives r
          → Survives (after_dup2 (elim r [ none ↦ none | some q ↦ some (q, dupfd oldfd newfd q) ]))
      closed_then none h = h
      closed_then (some q) h = dupfd-Fine oldfd newfd q h

  call-Survives : (c : FileCall) (p : Descriptors) → Counted others p → Survives (file_call c p)
  unfolding file_call
  call-Survives (call_open flag driver named) p h = open-Counted others few flag driver named p h
  call-Survives (call_close fd) p h = close-Survives fd p h
  call-Survives (call_dup2 oldfd newfd) p h = dup2-Survives oldfd newfd p h
  call-Survives (call_fcntl fd cmd arg) p h = fcntl-Fine fd cmd arg p h

  calls-Survive :
      (cs : List FileCall) (p : Descriptors) → Counted others p → Survives (file_calls cs p)
  unfolding file_calls
  calls-Survive [] p h = h
  calls-Survive (c ∷ cs) p h =
      go (file_call c p) (λ q k. calls-Survive cs q k) (call-Survives c p h)
    where
      go :
          (r : Option Descriptors)
          → ((q : Descriptors) → Counted others q → Survives (file_calls cs q))
          → Survives r
          → Survives (elim r [ none ↦ none | some q ↦ file_calls cs q ])
      go none next k = k
      go (some q) next k = next q k

  -- Any sequence of opening, closing and duplicating descriptors and of fcntl calls by a process whose
  -- 20 descriptors are counted in the file table, together with the uses that others make of a file,
  -- which leave room for 20 more in a count: the kernel does not panic because of a count of 0, and
  -- every count is again the number of descriptors on the file and of the others' uses.
  pub file_calls-Counted :
      (cs : List FileCall) (p : Descriptors)
      → Counted others p
      → (q : Descriptors) × (file_calls cs p ≡ some q) × Counted others q
  file_calls-Counted cs p h = result (file_calls cs p) (calls-Survive cs p h)
    where
      result :
          (r : Option Descriptors)
          → Survives r
          → (q : Descriptors) × (r ≡ some q) × Counted others q
      result none k = absurd k
      result (some q) k = (q, refl, k)
