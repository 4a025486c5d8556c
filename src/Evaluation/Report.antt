-- ===== src/Evaluation/Report.antt =====
-- `main`: the experiments for all parameters, and the file of their results. Opening, writing and
-- closing the file are taken to succeed, as the programs do not ask.
use Prim.Native.String.{String}
use scalable_non_zero_indica.Base.{
  ℕ, zero, suc, List, [], ◌∷◌, ◌++◌, none, some, Ending, done, failed, out_of_range, and_then,
  length, get_elem?, set, resize,
}
use scalable_non_zero_indica.Evaluation.{Program, file_name, num_threads, parameters, Doubles}
use scalable_non_zero_indica.Evaluation.Experiment.{Host, run_experiment_for_tree}

-- What one `<<` writes.
pub data Piece (D : Type 0) : Type 0 where
  text : String → Piece D
  size : ℕ → Piece D
  number : D → Piece D

-- `operator[]` of a vector, which is undefined past the end
unfoldable pub entry : {A : Type 0} → List A → ℕ → Ending A
entry xs i = elim (get_elem? xs i) [ none ↦ failed out_of_range | some x ↦ done x ]

module _ {D : Type 0} where
  -- The loop over the parameters in the second line
  unfoldable pub write_parameters : List (ℕ × ℕ) → List (Piece D)
  write_parameters [] = []
  write_parameters ((k, h) ∷ rest) =
      text "(K,H)=(" ∷ size k ∷ text "," ∷ size h ∷ text ")" ∷ text "\t" ∷ write_parameters rest

  -- The inner loop of a line, for `count` parameters from `j` on: `data[j][i]`
  unfoldable pub write_cells : List (List D) → ℕ → ℕ → ℕ → Ending (List (Piece D))
  write_cells all_data i j zero = done []
  write_cells all_data i j (suc count) = and_then (entry all_data j) λ all_visits.
      and_then (entry all_visits i) λ throughput.
        and_then (write_cells all_data i (suc j) count)
          λ rest. done (number throughput ∷ text "\t" ∷ rest)

  -- The outer loop, from the line `i` on
  unfoldable pub write_lines : List (List D) → List ℕ → ℕ → Ending (List (Piece D))
  write_lines all_data [] i = done []
  write_lines all_data (how_many_threads ∷ counts) i =
      and_then (write_cells all_data i 0 (length parameters)) λ cells.
        and_then (write_lines all_data counts (suc i))
          λ rest. done (size how_many_threads ∷ text "\t" ∷ cells ++ text "\n" ∷ rest)

  unfoldable pub write_file : List (List D) → Ending (List (Piece D))
  write_file all_data = and_then (write_lines all_data num_threads 0) λ lines. done (
      text "# Performance evaluation of snzi object\n"
        ∷ text "# num_threads\t"
        ∷ write_parameters parameters
      ++ text "\n" ∷ lines)

module _ {CpuSet World D : Type 0} (doubles : Doubles D) (host : Host CpuSet World) where
  -- The loop over the parameters, from those at `j` on
  unfoldable pub run_all : List (ℕ × ℕ) → ℕ → List (List D) → Ending (List (List D))
  run_all [] j all_data = done all_data
  run_all ((k, h) ∷ rest) j all_data = and_then (entry all_data j) λ all_visits.
      and_then (run_experiment_for_tree doubles host (host.setting j) k h all_visits)
        λ filled. run_all rest (suc j) (set all_data j filled)

  -- The name of the file, and what is in it at the end
  unfoldable pub main : Program → Ending (String × List (Piece D))
  main program =
      and_then (run_all parameters 0 (resize (length parameters) [] []))
        λ all_data. and_then (write_file all_data) λ pieces. done (file_name program, pieces)
