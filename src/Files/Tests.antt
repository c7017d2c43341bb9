-- ===== src/Files/Tests.antt =====
-- Tests of fs/fcntl.c and fs/open.c, on a process with three descriptors on one file.
use linux.Base.{ℕ, ◌≡◌, refl, none, some, replicate, List, [], ◌∷◌, ◌==◌, if◌then◌else◌, arith}
use linux.Files.{Descriptors, first_free, dupfd, install}
use linux.Files.Open.{FileCall, call_open, call_close, call_dup2, inode_of, file_calls}
use linux.Files.Counts.{uses, Counted, Few}
use linux.Files.Counts.Close.{file_calls-Counted}
use linux.Files.Dup.{Duplicated, dupfd-Duplicated}

abbrev open_three : Descriptors
open_three = record {
  filp = some 7 ∷ some 7 ∷ none ∷ some 7 ∷ replicate 16 none;
  close_on_exec = 6;
  files = λ g. record { mode = 3; flags = 2; count = 3; inode = 1; pos = 0 };
}

dupfd-Duplicated_example : Duplicated 3 1 2 open_three (install 2 7 open_three)
unfolding dupfd first_free
dupfd-Duplicated_example = dupfd-Duplicated 3 1 2 open_three (install 2 7 open_three) refl refl

-- The file has the three descriptors and one use by another process.
abbrev shared_file : Descriptors
shared_file = record open_three {
  files = λ g. record { mode = 3; flags = 2; count = if g == 7 then 4 else 0; inode = 1; pos = 0 };
}

abbrev one_other : ℕ → ℕ
one_other g = if g == 7 then 1 else 0

one_other-Few : Few one_other
one_other-Few g = ground arith

shared_file-Counted : Counted one_other shared_file
unfolding uses
shared_file-Counted = (refl, λ g. ground arith)

abbrev three_calls : List FileCall
three_calls = call_dup2 3 2 ∷ call_close 0 ∷ call_open 1 0 (inode_of 5) ∷ []

file_calls-Counted_example :
    (q : Descriptors) × (file_calls three_calls shared_file ≡ some q) × Counted one_other q
file_calls-Counted_example =
    file_calls-Counted one_other one_other-Few three_calls shared_file shared_file-Counted
