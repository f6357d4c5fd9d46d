-- ===== src/Flattenable/Tests.antt =====
-- Flattening pairs of bytes.
use qf.Prelude.{ℕ, ◌≡◌, refl, arith, List, [], ◌∷◌, length, ◌==◌, if◌then◌else◌}
use qf.Flattenable.{Pod, PodLaws, Cursor, Memory}
use qf.Flattenable.Streams.{write_all, read_all, total, read_all-write_all}

abbrev two_bytes : Pod
two_bytes = record {
  Value = ℕ × ℕ;
  size_of = 2;
  stored = λ v j. if j == 0 then v.0 else v.1;
  loaded = λ bytes. (bytes 0, bytes 1);
}

two_bytes-PodLaws : PodLaws two_bytes
two_bytes-PodLaws = record {
  loaded-stored = λ v bytes h. rw (h 0 (omega arith), h 1 (omega arith)) refl;
}

abbrev zeros : Memory
zeros a = 0

abbrev start : Cursor
start = record { buffer = 100; size = 8 }

abbrev values : List (ℕ × ℕ)
values = (1, 2) ∷ (3, 4) ∷ []

read_all-write_all_example :
    read_all two_bytes (length values) start (write_all two_bytes values (start, zeros)).1
    ≡ (values, (write_all two_bytes values (start, zeros)).0)
unfolding total
read_all-write_all_example =
    read_all-write_all two_bytes two_bytes-PodLaws values start zeros (omega arith)
