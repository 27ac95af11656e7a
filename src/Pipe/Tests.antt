-- ===== src/Pipe/Tests.antt =====
-- Tests of the pipe of project1/pipe.c, and its theorems at concrete inputs.
use ele3021_os.Common.{◌≤◌, ◌≡◌, refl, List, [], ◌∷◌, ◌++◌, true, false, arith}
use ele3021_os.Pipe.{Pipe, pipesize, pipewrite, piperead, pipeclose, put, read_copy}
use ele3021_os.Pipe.Fifo.{contents, held, IsPipe, Takes, pipewrite-Takes}
use ele3021_os.Pipe.Reading.{Gives, piperead-Gives, Event, writes, reads, closes, run, run-contents}

-- Two bytes are in the pipe, and its counters are about to wrap around.
abbrev wrapping : Pipe
wrapping = record {
  data' = λ i. i;
  nread = 4294967293;
  nwrite = 4294967295;
  readopen = true;
  writeopen = true;
}

wrapping-IsPipe : IsPipe wrapping
wrapping-IsPipe = record { nread_lt = omega arith; nwrite_lt = omega arith; room = omega arith }

pipewrite-Takes_example :
    Takes false
      (7 ∷ 8 ∷ [])
      wrapping
      ((pipewrite false (7 ∷ 8 ∷ []) wrapping).0)
      ((pipewrite false (7 ∷ 8 ∷ []) wrapping).1)
pipewrite-Takes_example = pipewrite-Takes false (7 ∷ 8 ∷ []) wrapping wrapping-IsPipe

piperead-Gives_example :
    Gives false 1 wrapping ((piperead false 1 wrapping).0) ((piperead false 1 wrapping).1)
piperead-Gives_example = piperead-Gives false 1 wrapping wrapping-IsPipe

abbrev some_calls : List Event
some_calls = writes false (7 ∷ 8 ∷ []) ∷ reads false 3 ∷ closes true ∷ reads false 9 ∷ []

run-contents_example :
    (contents wrapping ++ (run some_calls wrapping).0
      ≡ (run some_calls wrapping).1 ++ contents ((run some_calls wrapping).2))
    × (held ((run some_calls wrapping).2) ≤ pipesize)
run-contents_example = run-contents some_calls wrapping wrapping-IsPipe

-- the bytes come out in order across the wrap
run_outs : (run some_calls wrapping).1 ≡ 509 ∷ 510 ∷ 7 ∷ 8 ∷ []
unfolding run pipewrite piperead pipeclose put read_copy
run_outs = refl
