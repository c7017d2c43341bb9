-- ===== src/Pipe/Tests.antt =====
-- Tests of the pipes of fs/pipe.c, with one byte before the end of the page.
use linux.Base.{
  ℕ, ◌-◌, ◌≡◌, refl, List, [], ◌∷◌, ◌++◌, arith, true, false, inl, replicate, length-replicate,
  length, take, min,
}
use linux.Pipe.{Pipe, pipe_read, pipe_write, page_size, got}
use linux.Pipe.Contents.{IsValid, contents}
use linux.Pipe.Read.{pipe_read_lem}
use linux.Pipe.Write.{pipe_write_lem, written}

-- Two bytes, one on each side of the end of the page.
abbrev two_bytes : Pipe
two_bytes = record { page = replicate 4096 0; head = 1; tail = 4095; count = 2 }

abbrev empty : Pipe
empty = record { page = replicate 4096 0; head = 5; tail = 5; count = 2 }

two_bytes-IsValid : IsValid two_bytes
two_bytes-IsValid = record {
  page = length-replicate {A = ℕ} 4096 0;
  head = omega arith;
  tail = omega arith;
}

empty-IsValid : IsValid empty
empty-IsValid = record {
  page = length-replicate {A = ℕ} 4096 0;
  head = omega arith;
  tail = omega arith;
}

pipe_read_lem_example :
    (bytes : List ℕ) × (p' : Pipe) × (pipe_read 10 true false 9 two_bytes ≡ got bytes p')
    × (bytes ++ contents p' ≡ contents two_bytes)
    × (length bytes ≡ min 9 (length (contents two_bytes)))
    × IsValid p'
pipe_read_lem_example =
    pipe_read_lem 10 9 true false two_bytes two_bytes-IsValid (omega arith) (inl refl)

pipe_write_lem_example :
    let free = page_size - 1 - length (contents empty) in
    (p' : Pipe) × (pipe_write 4 false (1 ∷ 2 ∷ 3 ∷ []) empty
      ≡ written false (1 ∷ 2 ∷ 3 ∷ []) free p')
    × (contents p' ≡ contents empty ++ take (min 3 free) (1 ∷ 2 ∷ 3 ∷ []))
    × (p'.count ≡ empty.count)
    × IsValid p'
pipe_write_lem_example = pipe_write_lem 4 false (1 ∷ 2 ∷ 3 ∷ []) empty empty-IsValid (omega arith)
