-- ===== src/Tests/Pipes.antt =====
-- A pipe that is made, gives three bytes, and is removed.
use the_multi_room_speaker.Base.{◌≡◌, refl, true, false, none, some, [], ◌∷◌, length, arith}
use the_multi_room_speaker.Base.Int.{ℤ, pos, negsuc}
use the_multi_room_speaker.Pipe.{
  PipeCall, find_file, open_file, wait_read, read_file, PipeLog, PipeOs, CPipeIn, asked, cleared,
  opened, new_pipe, peeks, end_pipe,
}
use the_multi_room_speaker.Pipe.Ends.{held_fds, made, ReadsOffered, RemovesFiles, pipe_ends}

abbrev answers : PipeLog → PipeCall → ℤ
answers l find_file = negsuc 0
answers l open_file = pos 5
answers l (wait_read f) = pos 1
answers l (read_file f n) = pos n
answers l c = pos 0

abbrev os : PipeOs
os = record {
  returns = answers;
  is_set = λ l. true;
  stored = λ l. 1 ∷ 2 ∷ 3 ∷ [];
  open_spares = λ l. refl;
}

os-ReadsOffered : ReadsOffered os
unfolding ReadsOffered
os-ReadsOffered l f n = omega arith

os-RemovesFiles : RemovesFiles os
unfolding RemovesFiles
os-RemovesFiles l = refl

abbrev pipe : CPipeIn
pipe = elim (new_pipe os []) [ none ↦ record { fd = pos 0; own = false; log = [] } | some p ↦ p ]

pipe_opens : new_pipe os [] ≡ some pipe
unfolding new_pipe cleared opened asked
pipe_opens = refl

pipe_ends_example :
    let (buff', p') = peeks os 2 3 (0 ∷ 0 ∷ 0 ∷ 0 ∷ []) pipe in
    (length buff' ≡ 4) × (held_fds (end_pipe os p') ≡ []) × (made (end_pipe os p') ≡ false)
pipe_ends_example =
    pipe_ends os 2 3 (0 ∷ 0 ∷ 0 ∷ 0 ∷ []) pipe os-ReadsOffered os-RemovesFiles (omega arith)
      pipe_opens
