-- ===== src/Cpp/Spawn.antt =====
-- `spawnPlugin` of cpp/src/client.cpp, over the descriptors that processes hold. The system's
-- answers are parameters: an `errno` for a call that fails, and for `execvp` in the child.
pub mod Descriptors
use openmso_api.Prelude.{
  ℕ, suc, ◌+◌, Bool, true, false, Option, none, some, List, [], ◌∷◌, ◌++◌, ◌==◌, if◌then◌else◌, Str,
  codes, ◌⊎◌, inl, inr,
}
use openmso_api.Cpp.Errors.{io_error, Result, returned, thrown}

-- A descriptor, and whether FD_CLOEXEC is set on it.
pub record Descriptor : Type 0 where
  pub fd : ℕ
  pub cloexec : Bool

-- The frontend's process: the descriptors that it holds, and its children that it has not waited for;
-- and the descriptors that each running plugin holds, the latest plugin first.
pub record Process : Type 0 where
  pub held : List Descriptor
  pub children : List ℕ
  pub plugins : List (ℕ × List ℕ)

-- `Spawned`
pub record Spawned : Type 0 where
  pub pid : ℕ
  pub stdin_fd : ℕ

-- The members of a list that are not a given number.
unfoldable pub without : ℕ → List ℕ → List ℕ
without n [] = []
without n (x ∷ xs) = let rest = without n xs in if x == n then rest else x ∷ rest

-- The descriptors without a given one.
unfoldable pub without_fd : ℕ → List Descriptor → List Descriptor
without_fd fd [] = []
without_fd fd (d ∷ ds) = let rest = without_fd fd ds in if d.fd == fd then rest else d ∷ rest

-- `::close`
unfoldable pub close : ℕ → Process → Process
unfolding without_fd
close fd p = record p { held = without_fd fd p.held }

-- `::fcntl(fd, F_SETFD, FD_CLOEXEC)`
unfoldable pub set_cloexec : ℕ → List Descriptor → List Descriptor
set_cloexec fd [] = []
set_cloexec fd (d ∷ ds) =
    let rest = set_cloexec fd ds in
    if d.fd == fd then record { fd = fd; cloexec = true } ∷ rest else d ∷ rest

-- A descriptor as `::pipe` and `::dup2` make it.
abbrev pub kept : ℕ → Descriptor
kept fd = record { fd = fd; cloexec = false }

-- `::pipe`, by what the system answers: an `errno`, or the read end and the write end.
abbrev pub pipe : ℕ ⊎ (ℕ × ℕ) → Process → Process
pipe (inl e) p = p
pipe (inr (read, write)) p = record p { held = kept write ∷ kept read ∷ p.held }

-- `::dup2`, which does nothing where the two are the same.
unfoldable pub dup2 : ℕ → ℕ → List Descriptor → List Descriptor
unfolding without_fd
dup2 from to ds = if from == to then ds else kept to ∷ without_fd to ds

-- What `::execvp` leaves open.
unfoldable pub after_exec : List Descriptor → List ℕ
after_exec [] = []
after_exec (d ∷ ds) = let rest = after_exec ds in if d.cloexec then rest else d.fd ∷ rest

-- `::waitpid` of a child: it takes the process away.
unfoldable pub waitpid : ℕ → Process → Process
unfolding without
waitpid pid p = record p { children = without pid p.children }

-- What the child makes of the descriptors that it got at the `::fork`, up to and with an `::execvp`
-- that succeeds.
unfoldable pub child_table : ℕ → ℕ → ℕ → List Descriptor → List ℕ
unfolding without_fd dup2 after_exec
child_table stdin_read stdin_write err_read held =
    let closed = without_fd err_read (without_fd stdin_write held) in
    after_exec (without_fd stdin_read (dup2 stdin_read 0 closed))

module _ (strerror : ℕ → Str) (program : Str) (exec : Option ℕ) where
  -- What the parent does behind the `::fork`.
  unfoldable pub after_fork : ℕ → ℕ → ℕ → ℕ → ℕ → Process → Process × Result Spawned
  unfolding close waitpid child_table
  after_fork pid stdin_read stdin_write err_read err_write p =
      let table = child_table stdin_read stdin_write err_read p.held in
      let forked = record p { children = pid ∷ p.children } in
      let reading = close err_write (close stdin_read forked) in
      let read = close err_read reading in
      elim exec [
        | some e ↦ (
          close stdin_write (waitpid pid read),
          thrown (io_error strerror e (codes "exec " ++ program)),
        )
        | none ↦ (
          record read { plugins = (pid, table) ∷ read.plugins },
          returned (record { pid = pid; stdin_fd = stdin_write }),
        )
      ]

  -- What follows the second `::pipe`.
  unfoldable pub fork_plugin : ℕ ⊎ ℕ → ℕ → ℕ → ℕ → ℕ → Process → Process × Result Spawned
  unfolding close after_fork
  fork_plugin (inl e) stdin_read stdin_write err_read err_write p = (
    close err_write (close err_read (close stdin_write (close stdin_read p))),
    thrown (io_error strerror e (codes "fork")),
  )
  fork_plugin (inr pid) stdin_read stdin_write err_read err_write p =
      after_fork pid stdin_read stdin_write err_read err_write p

  -- `spawnPlugin`, by what the two `::pipe` and the `::fork` answer.
  unfoldable pub spawn_plugin :
      ℕ ⊎ (ℕ × ℕ) → ℕ ⊎ (ℕ × ℕ) → ℕ ⊎ ℕ → Process → Process × Result Spawned
  unfolding close set_cloexec fork_plugin
  spawn_plugin (inl e) second fork p = (p, thrown (io_error strerror e (codes "pipe")))
  spawn_plugin (inr (stdin_read, stdin_write)) (inl e) fork p = (
    close stdin_write (close stdin_read (pipe (inr (stdin_read, stdin_write)) p)),
    thrown (io_error strerror e (codes "pipe")),
  )
  spawn_plugin (inr (stdin_read, stdin_write)) (inr (err_read, err_write)) fork p =
      let piped = pipe (inr (err_read, err_write)) (pipe (inr (stdin_read, stdin_write)) p) in
      fork_plugin fork stdin_read stdin_write err_read err_write
        (record piped { held = set_cloexec err_write piped.held })
