-- ===== src/TestSuite/Measured.antt =====
-- test_suite: what a whole test keeps and gives, for a statement that does not speak of the commands.
use kerberized_multimedia_in.Base.{ℕ, ◌≡◌, List}
use kerberized_multimedia_in.Base.Ints.{ℤ}
use kerberized_multimedia_in.CLib.{Outcome, returns}
use kerberized_multimedia_in.TestSuite.Bench.{Bench, Command, Trial, result}
use kerberized_multimedia_in.TestSuite.Requests.{
  Setting, create_clients, delete_clients, total_time,
}
use kerberized_multimedia_in.TestSuite.Commands.{create_clients_lem, delete_clients_lem}
use kerberized_multimedia_in.TestSuite.Measures.{measure}
use kerberized_multimedia_in.TestSuite.Meets.{Ending, Meets, Meets-and_then, Meets-lift}

-- What does not speak of the commands.
abbrev pub Silent : (Bench → Type 0) → Type 0
Silent G = (b : Bench) (cs : List Command) → G b → G (record b { commands = cs })

module _ (e : Ending) (s : Setting) where
  pub measure_lem :
      (I : ℕ → Bench → Type 0)
      → ((k : ℕ) → Silent (I k))
      → (requests : Trial (Unit {0})) (k last lines : ℕ) (mean : ℤ → Outcome ℤ) (b : Bench) → I k b
      → ((c : Bench) → I k c → Meets e (λ _ c'. I last c') (requests c))
      → ((c : Bench) → I last c → (t : ℤ) × (mean (total_time lines c.log) ≡ returns t))
      → Meets e
          (λ t b'. I last b' × (mean (total_time lines b'.log) ≡ returns t))
          (measure s requests lines mean b)
  unfolding measure
  measure_lem I silent requests k last lines mean b h made known =
      let Ends : ℤ → Bench → Type 0 =
        λ t c. I last c × (mean (total_time lines c.log) ≡ returns t) in
      Meets-and_then e (λ _. I k) Ends (create_clients s b) _
        (rw (create_clients_lem s b) (silent k b _ h))
        (λ _ c h'.
          Meets-and_then e (λ _. I last) Ends (requests c) _ (made c h')
            (λ _ d h''.
              let (t, same) = known d h'' in
              Meets-lift e Ends (mean (total_time lines d.log)) t _ d same (
                Meets-and_then e (λ _. Ends t) Ends (delete_clients s d) (λ _. result t)
                  (rw (delete_clients_lem s d) (silent last d _ h'', same)) (λ _ c' h3. h3))))
