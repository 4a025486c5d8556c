-- ===== src/Evaluation/Table.antt =====
-- The file that an evaluation program leaves.
use scalable_non_zero_indica.Base.{
  ℕ, zero, suc, ◌<◌, ◌≡◌, some, refl, arith, List, [], ◌∷◌, ◌++◌, done, get_elem?, set, resize,
}
use scalable_non_zero_indica.Evaluation.{
  Program, file_name, num_threads, parameters, Doubles, throughput,
}
use scalable_non_zero_indica.Evaluation.Experiment.{
  Host, run_once, run_counts, run_experiment_for_tree,
}
use scalable_non_zero_indica.Evaluation.Runs.{IsServing, counted, run_ends}
use scalable_non_zero_indica.Evaluation.Trees.{parameters_branching}
use scalable_non_zero_indica.Evaluation.Report.{
  Piece, text, size, number, entry, write_parameters, write_cells, write_lines, write_file, run_all,
  main,
}

module _ {D : Type 0} where
  abbrev pub cells : List D → List (Piece D)
  cells [] = []
  cells (x ∷ xs) = number x ∷ text "\t" ∷ cells xs

  abbrev pub lines_from : (ℕ → ℕ → D) → ℕ → ℕ → List (Piece D)
  lines_from cell i zero = []
  lines_from cell i (suc count) =
      size (suc i) ∷ text "\t" ∷ cells (cell 0 i ∷ cell 1 i ∷ cell 2 i ∷ cell 3 i ∷ [])
      ++ text "\n" ∷ lines_from cell (suc i) count

  abbrev pub title : ℕ → ℕ → List (Piece D)
  title k h = text "(K,H)=(" ∷ size k ∷ text "," ∷ size h ∷ text ")" ∷ text "\t" ∷ []

  -- A line for each of 1 to 8 threads, with `cell j i` in the column of the parameters at `j`.
  abbrev pub table : (ℕ → ℕ → D) → List (Piece D)
  table cell =
      text "# Performance evaluation of snzi object\n" ∷ text "# num_threads\t" ∷ title 2 0
      ++ title 2 1
      ++ title 2 2
      ++ title 4 1
      ++ text "\n" ∷ lines_from cell 0 8

module _ {CpuSet World D : Type 0} (doubles : Doubles D) (host : Host CpuSet World)
    (visits : ℕ → ℕ → List ℕ) where
  cell : ℕ → ℕ → ℕ → D
  cell j i n = throughput doubles n (visits j i)

  filled : ℕ → List ℕ → ℕ → List D → List D
  filled j [] i xs = xs
  filled j (n ∷ ns) i xs = filled j ns (suc i) (set xs i (cell j i n))

  -- The run for the parameters at `j` and the number of threads at `i` ends with `visits j i`.
  abbrev pub Gives : ℕ → ℕ → ℕ → ℕ → ℕ → Type 0
  Gives j i k h n =
      run_once doubles host (host.setting j i) k h n ≡ done (throughput doubles n (visits j i))

  abbrev AllGive : ℕ → ℕ → ℕ → List ℕ → ℕ → Type 0
  AllGive j k h [] i = Unit
  AllGive j k h (n ∷ ns) i = Gives j i k h n × AllGive j k h ns (suc i)

  counts_end :
      (j k h : ℕ) (ns : List ℕ) (i : ℕ) (xs : List D)
      → AllGive j k h ns i
      → run_counts doubles host (host.setting j) k h ns i xs ≡ done (filled j ns i xs)
  unfolding run_counts filled cell
  counts_end j k h [] i xs give = refl
  counts_end j k h (n ∷ ns) i xs (gives, give) =
      rw gives (counts_end j k h ns (suc i) (set xs i (cell j i n)) give)

  column : ℕ → List D
  column j =
      cell j 0 1
      ∷ cell j 1 2
      ∷ cell j 2 3
      ∷ cell j 3 4
      ∷ cell j 4 5
      ∷ cell j 5 6
      ∷ cell j 6 7
      ∷ cell j 7 8
      ∷ []

  module _
      (gives : (j i k h : ℕ)
        → get_elem? parameters j ≡ some (k, h)
        → i < 8
        → Gives j i k h (suc i)) where
    experiment_ends :
        (j k h : ℕ)
        → get_elem? parameters j ≡ some (k, h)
        → run_experiment_for_tree doubles host (host.setting j) k h [] ≡ done (column j)
    unfolding run_experiment_for_tree resize set column filled
    experiment_ends j k h e =
        let given = λ (i : ℕ) (lt : i < 8). gives j i k h e lt in
        counts_end j k h num_threads 0 (resize 8 doubles.zero []) (
          given 0 (omega arith),
          (
            given 1 (omega arith),
            (
              given 2 (omega arith),
              (
                given 3 (omega arith),
                (
                  given 4 (omega arith),
                  (given 5 (omega arith), (given 6 (omega arith), (given 7 (omega arith), tt))),
                ),
              ),
            ),
          ),
        )

    all_end :
        run_all doubles host parameters 0 (resize 4 [] [])
        ≡ done (column 0 ∷ column 1 ∷ column 2 ∷ column 3 ∷ [])
    unfolding run_all resize set entry get_elem?
    all_end = rw (experiment_ends 0 2 0 refl) (
        rw (experiment_ends 1 2 1 refl)
          (rw (experiment_ends 2 2 2 refl) (rw (experiment_ends 3 4 1 refl) refl)))

    -- Whatever the runs give, the file is a table of their throughputs.
    pub table_of_runs :
        (program : Program)
        → main doubles host program
          ≡ done (file_name program, table λ j i. throughput doubles (suc i) (visits j i))
    unfolding main write_file write_lines write_cells write_parameters entry get_elem? column cell
    table_of_runs program = rw all_end refl

module _ {CpuSet World D : Type 0} (doubles : Doubles D) (host : Host CpuSet World)
    (serving : IsServing host) where
  -- On a machine with at least one core, where pinning a thread to one of its cores succeeds, new
  -- has room for the trees of the parameters, the memory that the threads of cache_wiper read
  -- holds numbers below 2 ^ 40, and each run is timed (the flag is set in the end, and the clock
  -- reaches the end time), each evaluation program ends and leaves its file with a line for each
  -- of 1 to 8 threads and a column for each of the parameters (2,0), (2,1), (2,2) and (4,1); the
  -- cell in the column j and the line i is the throughput of the visits that the threads of that
  -- run make before their end times.
  pub main-table :
      (program : Program)
      → main doubles host program
        ≡ done (
          file_name program,
          table λ j i.
              throughput doubles (suc i) (counted host.second (host.setting j i).watch 0 (suc i)),
        )
  main-table =
      table_of_runs doubles host (λ j i. counted host.second (host.setting j i).watch 0 (suc i))
        (λ j i k h e lt.
          run_ends host serving doubles j i k h (suc i) e (parameters_branching j k h e))
