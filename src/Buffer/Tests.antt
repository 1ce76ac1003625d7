-- ===== src/Buffer/Tests.antt =====
-- Runs of the buffer's operations at concrete storage, and what the theorems say there.
use evk.Prelude.{
  ◌+◌, ◌≤◌, ◌<◌, ◌≡◌, refl, List, [], ◌∷◌, ◌++◌, some, ◌⊎◌, arith, length, replicate, sub_size,
  length-replicate,
}
use evk.Buffer.{Allocator, Buffer, load, write, read_from_fd, received, offered, size}
use evk.Buffer.Invariant.{IsValid, contents}
use evk.Buffer.Writes.{Holds, write-Holds}
use evk.Buffer.Reads.{Leaves}
use evk.Buffer.Fd.{read_from_fd-Holds}
use evk.Buffer.Find.{memchr, search_for, begins, find_crlf, find_eol}
use evk.Buffer.Session.{
  Op, appends, skips, takes, takes_all, looks, step_queue, run_queue, run_buffer, run_refines,
}
use evk.Buffer.Endian.{little, i16, i32, append_int, read_int, peek_int}
use evk.Buffer.Endian.Laws.{wire, append_int-Holds, read_int-Leaves}

-- A block that comes with every byte zero.
instance unfoldable pub zeros : Allocator
zeros = record { new_chars = λ n. replicate n 0; length-new_chars = λ n. length-replicate n 0 }

-- "a\r\n" behind two read bytes, with two bytes free.
abbrev text : Buffer
text = record {
  buffer = 1 ∷ 2 ∷ 97 ∷ 13 ∷ 10 ∷ 0 ∷ 0 ∷ [];
  capacity = 7;
  read_index = 2;
  write_index = 5;
  reserved_prepend_size = 1;
}

text-IsValid : IsValid text
text-IsValid = omega arith

write-Holds_example :
    (b' : Buffer) × (write (7 ∷ 8 ∷ 9 ∷ []) text ≡ some b')
    × Holds (contents text ++ 7 ∷ 8 ∷ 9 ∷ []) text b'
    × ((b'.capacity ≡ 7) ⊎ ((b'.capacity ≡ 7 + 7 + 3) × (7 < length (contents text) + 3 + 1)))
write-Holds_example = write-Holds (7 ∷ 8 ∷ 9 ∷ []) text text-IsValid (omega arith)

read_from_fd-Holds_example :
    (b' : Buffer) × (read_from_fd (received (7 ∷ 8 ∷ 9 ∷ [])) text
      ≡ some (received (7 ∷ 8 ∷ 9 ∷ []), b'))
    × Holds (contents text ++ 7 ∷ 8 ∷ 9 ∷ []) text b'
unfolding offered
read_from_fd-Holds_example =
    read_from_fd-Holds (7 ∷ 8 ∷ 9 ∷ []) text text-IsValid (omega arith) (omega arith)

find_crlf-text : find_crlf 0 text ≡ some (some 1)
unfolding find_crlf size sub_size load search_for begins
find_crlf-text = refl

find_eol-text : find_eol 1 text ≡ some (some 2)
unfolding find_eol size sub_size load memchr
find_eol-text = refl

append_int-Holds_example :
    (b' : Buffer) × (append_int little i32 0x01020304 text ≡ some b')
    × Holds (contents text ++ wire little i32 0x01020304) text b'
append_int-Holds_example =
    append_int-Holds little i32 0x01020304 (omega arith) text text-IsValid (omega arith)

wire-i16 : wire little i16 0x610D ≡ 97 ∷ 13 ∷ []
wire-i16 = refl

read_int-Leaves_example :
    (peek_int little i16 text ≡ some 0x610D)
    × (b' : Buffer) × (read_int little i16 text ≡ some (0x610D, b'))
    × Leaves (10 ∷ []) text b'
read_int-Leaves_example =
    read_int-Leaves little i16 0x610D (omega arith) text text-IsValid (10 ∷ []) refl

-- A client that appends, skips and takes.
abbrev script : List Op
script = appends (7 ∷ 8 ∷ 9 ∷ []) ∷ skips 1 ∷ takes 2 ∷ looks ∷ takes_all ∷ []

run-script :
    (run_queue script (contents text)).0
    ≡ [] ∷ [] ∷ (13 ∷ 10 ∷ []) ∷ (7 ∷ 8 ∷ 9 ∷ []) ∷ (7 ∷ 8 ∷ 9 ∷ []) ∷ []
unfolding run_queue step_queue
run-script = refl

run_refines_example :
    (b' : Buffer) × (run_buffer script text ≡ some ((run_queue script (contents text)).0, b'))
    × (contents b' ≡ (run_queue script (contents text)).1)
    × IsValid b'
    × (b'.capacity ≤ 30)
run_refines_example =
    run_refines 30 script text text-IsValid (omega arith) (omega arith) (omega arith)
