-- ===== src/Server/Main/Turns.antt =====
-- The server over the turns of its loop.
use fuse_ext.Base.{
  ℕ, ◌≤◌, ◌≡◌, refl, sym, ap, ◌∙◌, true, none, List, [], ◌∷◌, ◌++◌, length, Memory, Outcome, ok,
  fault, out_of_fuel, ◌>>=◌, >>=-eq-ok, ok-injective, arith,
}
use fuse_ext.Rpc.{Request, Response}
use fuse_ext.Log.Lines.{log_write_in_level-fits}
use fuse_ext.Log.{Log, debug, info, log_create, log_info, Written}
use fuse_ext.Ext2.Geometry.{Fs}
use fuse_ext.Ext2.Resize.{Clusters}
use fuse_ext.Server.{Host, serve, serve_all}
use fuse_ext.Server.Main.{
  server_name, fs_message, server_message, listening_message, turns_loop, server_run_lines, runs_on,
  main,
}
use fuse_ext.Server.Started.{IsStarted, server_create_iff}

abbrev pub concat {ℓ} : {A : Type ℓ} → List (List A) → List A
concat [] = []
concat (xs ∷ xss) = xs ++ concat xss

abbrev joined : Memory × List Response → Memory × List Response → Outcome (Memory × List Response)
joined a b = ok (b.0, a.1 ++ b.1)

abbrev put_first : Response → Memory × List Response → Outcome (Memory × List Response)
put_first r b = ok (b.0, r ∷ b.1)

abbrev all_responses : Memory × List (List Response) → Outcome (Memory × List Response)
all_responses r = ok (r.0, concat r.1)

bind-ok : (run : Outcome (Memory × List Response)) → (run >>= λ b. ok (b.0, b.1)) ≡ run
bind-ok fault = refl
bind-ok out_of_fuel = refl
bind-ok (ok b) = refl

by_second :
    (r : Response) (a : Memory × List Response) (run : Outcome (Memory × List Response))
    → (run >>= (λ b. joined a b) >>= put_first r) ≡ (run >>= λ b. joined (a.0, r ∷ a.1) b)
by_second r a fault = refl
by_second r a out_of_fuel = refl
by_second r a (ok b) = refl

module _ (clusters : Clusters) (fs : Fs) where
  -- Requests in two parts.
  serve_all-append :
      (m : Memory) (xs ys : List Request)
      → serve_all clusters m fs (xs ++ ys)
        ≡ (serve_all clusters m fs xs >>= λ a. serve_all clusters a.0 fs ys >>= λ b. joined a b)
  unfolding serve_all
  serve_all-append m [] ys = sym (bind-ok (serve_all clusters m fs ys))
  serve_all-append m (x ∷ xs) ys =
      next (serve clusters m fs x) λ first. serve_all-append first.0 xs ys
    where
      rest :
          (r : Response) (run : Outcome (Memory × List Response))
          → (run >>= (λ a. serve_all clusters a.0 fs ys >>= λ b. joined a b) >>= put_first r)
            ≡ ((run >>= put_first r) >>= λ a. serve_all clusters a.0 fs ys >>= λ b. joined a b)
      rest r fault = refl
      rest r out_of_fuel = refl
      rest r (ok a) = by_second r a (serve_all clusters a.0 fs ys)

      next :
          (run : Outcome (Memory × Response))
          → ((first : Memory × Response)
              → serve_all clusters first.0 fs (xs ++ ys) ≡ (
                  serve_all clusters first.0 fs xs >>= λ a.
                  serve_all clusters a.0 fs ys >>= λ b. joined a b))
          → (run >>= λ first. serve_all clusters first.0 fs (xs ++ ys) >>= put_first first.1) ≡ (
              (run >>= λ first. serve_all clusters first.0 fs xs >>= put_first first.1) >>= λ a.
              serve_all clusters a.0 fs ys >>= λ b. joined a b)
      next fault same = refl
      next out_of_fuel same = refl
      next (ok first) same =
          ap (λ t. t >>= put_first first.1) (same first)
          ∙ rest first.1 (serve_all clusters first.0 fs xs)

  -- The turns of the loop do what the requests do one after the other.
  turns_loop-serve_all :
      (turns : List (List Request)) (m : Memory)
      → (turns_loop clusters m fs turns >>= all_responses) ≡ serve_all clusters m fs (concat turns)
  unfolding turns_loop serve_all
  turns_loop-serve_all [] m = refl
  turns_loop-serve_all (rs ∷ turns) m =
      by_first (serve_all clusters m fs rs) (λ a. turns_loop-serve_all turns a.0)
      ∙ sym (serve_all-append m rs (concat turns))
    where
      by_rest :
          (a : Memory × List Response) (run : Outcome (Memory × List (List Response)))
          → (run >>= (λ b. ok (b.0, a.1 ∷ b.1)) >>= all_responses)
            ≡ (run >>= all_responses >>= λ b. joined a b)
      by_rest a fault = refl
      by_rest a out_of_fuel = refl
      by_rest a (ok b) = refl

      by_first :
          (run : Outcome (Memory × List Response))
          → ((a : Memory × List Response)
              → (turns_loop clusters a.0 fs turns >>= all_responses)
                ≡ serve_all clusters a.0 fs (concat turns))
          → (run
              >>= (λ a. turns_loop clusters a.0 fs turns >>= λ b. ok (b.0, a.1 ∷ b.1))
              >>= all_responses)
            ≡ (run >>= λ a. serve_all clusters a.0 fs (concat turns) >>= λ b. joined a b)
      by_first fault same = refl
      by_first out_of_fuel same = refl
      by_first (ok a) same =
          by_rest a (turns_loop clusters a.0 fs turns) ∙ ap (λ t. t >>= λ b. joined a b) (same a)

abbrev pub server_log : ℕ → Log
server_log pid = record {
  file = none;
  is_active_console = true;
  detail = debug;
  program_name = server_name;
  pid = pid;
}

pub logged :
    (pid : ℕ) (call : List ℕ × ℕ) (message : List ℕ) (out : Written)
    → length call.0 ≤ 12
    → length message ≤ 1024
    → (after : Written) × (log_info (server_log pid) call.0 call.1 message out ≡ ok after)
logged pid call message out short fits =
    let (name, named, run) =
      log_write_in_level-fits (server_log pid) info call.0 call.1 message out (omega arith) short
        fits in
    (_, run)

-- When every call at the start succeeds, on a regular file that holds the file system, and no time
-- has more than twelve characters: if the requests of all the turns, one after the other, end with
-- a memory and responses, the server runs on after these turns with that memory and has given, by
-- turns, those responses.
pub main-serve_all :
    (clusters : Clusters) (host : Host) (fs : Fs) (m : Memory) (pid : ℕ) (clock : ℕ → List ℕ × ℕ)
    (turns : List (List Request)) (out : Written) {after : Memory} {responses : List Response}
    → IsStarted host fs m
    → ((i : ℕ) → length (clock i).0 ≤ 12)
    → serve_all clusters m fs (concat turns) ≡ ok (after, responses)
    → (by_turn : List (List Response)) × (lines : Written) × (main clusters host pid clock turns out
        ≡ ok (runs_on after by_turn lines))
      × (concat by_turn ≡ responses)
unfolding main log_create server_run_lines
main-serve_all clusters host fs m pid clock turns out {after} {responses} started short served =
    let start = (server_create_iff host fs m).1 started in
    let (out1, first) = logged pid (clock 0) fs_message out (short 0) (omega arith) in
    let (out2, second) = logged pid (clock 1) server_message out1 (short 1) (omega arith) in
    let (out3, third) = logged pid (clock 2) listening_message out2 (short 2) (omega arith) in
    let (r, looped, joined_up) =
      >>=-eq-ok (turns_loop clusters m fs turns) all_responses
        (turns_loop-serve_all clusters fs turns m ∙ served) in
    let same = ok-injective joined_up in
    (
      r.1,
      out3,
      rw start (
          rw first (
            rw second (
              rw third (
                rw looped (ap (λ (t : Memory × List Response). ok (runs_on t.0 r.1 out3)) same))))),
      ap (λ (t : Memory × List Response). t.1) same,
    )
