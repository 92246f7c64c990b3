-- ===== src/Client/Cli.antt =====
-- client/config.rs: the command line of the console client. Parsing by `structopt` and the lower case
-- of the standard library are parameters.
use Prim.Native.String.{String}
use text.Mathlib.Text.{◌==◌}
use text.Mathlib.TextEquality.{eq_iff}
use fectl.Prelude.{
  ◌↔◌, inl, inr, subst, sym, ap, ◌∙◌, Bool-cases, Option-cases, ◌≡◌, refl, arith, Option, none,
  some, if◌then◌else◌,
}
use fectl.Client.{ClientCommand}
use fectl.Client.Misdirected.{named}
use fectl.Utils.{trim}

pub record Cli : Type 0 where
  pub sock : String
  pub command : String
  pub name : Option String

-- The commands that need no service.
unfoldable pub plain_command : String → Option ClientCommand
plain_command cmd =
    if cmd == "pid"
    then some ClientCommand.pid
    else if cmd == "quit"
    then some ClientCommand.quit
    else if cmd == "version"
    then some ClientCommand.version
    else if cmd == "version-check"
    then some ClientCommand.version_check
    else none

unfoldable pub service_command : String → String → Option ClientCommand
service_command cmd name =
    if cmd == "status"
    then some (ClientCommand.status name)
    else if cmd == "spid"
    then some (ClientCommand.spid name)
    else if cmd == "start"
    then some (ClientCommand.start name)
    else if cmd == "stop"
    then some (ClientCommand.stop name)
    else if cmd == "reload"
    then some (ClientCommand.reload name)
    else if cmd == "restart"
    then some (ClientCommand.restart name)
    else if cmd == "pause"
    then some (ClientCommand.pause name)
    else if cmd == "resume"
    then some (ClientCommand.resume name)
    else none

-- Pairs with the path of the socket.
at_socket : String → Option ClientCommand → Option (ClientCommand × String)
at_socket sock none = none
at_socket sock (some cmd) = some (cmd, sock)

unfoldable pub load_config : (String → String) → Cli → Option (ClientCommand × String)
unfolding at_socket
load_config to_lowercase args =
    let cmd = trim (to_lowercase args.command) in
    elim (plain_command cmd) [
      | some plain ↦ some (plain, args.sock)
      | none ↦ elim args.name [
        | none ↦ none
        | some name ↦ at_socket args.sock (service_command cmd name)
      ]
    ]

-- How a command is written.
unfoldable pub word : ClientCommand → String
word (ClientCommand.start name) = "start"
word (ClientCommand.pause name) = "pause"
word (ClientCommand.resume name) = "resume"
word (ClientCommand.reload name) = "reload"
word (ClientCommand.restart name) = "restart"
word (ClientCommand.stop name) = "stop"
word (ClientCommand.status name) = "status"
word (ClientCommand.spid name) = "spid"
word ClientCommand.pid = "pid"
word ClientCommand.quit = "quit"
word ClientCommand.version = "version"
word ClientCommand.version_check = "version-check"

-- The command line gives all that the command needs.
abbrev pub IsWritten : (String → String) → Cli → ClientCommand → Type 0
IsWritten to_lowercase args cmd =
    (trim (to_lowercase args.command) ≡ word cmd)
    × ((name : String) → named cmd ≡ some name → args.name ≡ some name)

-- The text alone decides on the command.
chosen : String → Option String → Option ClientCommand
chosen cmd name = elim (plain_command cmd) [
  | some plain ↦ some plain
  | none ↦ elim name [ none ↦ none | some n ↦ service_command cmd n ]
]

chosen-word :
    (cmd : ClientCommand) (name : Option String)
    → ((n : String) → named cmd ≡ some n → name ≡ some n)
    → chosen (word cmd) name ≡ some cmd
unfolding chosen plain_command service_command word named
chosen-word (ClientCommand.start name) n h = rw (h name refl) refl
chosen-word (ClientCommand.pause name) n h = rw (h name refl) refl
chosen-word (ClientCommand.resume name) n h = rw (h name refl) refl
chosen-word (ClientCommand.reload name) n h = rw (h name refl) refl
chosen-word (ClientCommand.restart name) n h = rw (h name refl) refl
chosen-word (ClientCommand.stop name) n h = rw (h name refl) refl
chosen-word (ClientCommand.status name) n h = rw (h name refl) refl
chosen-word (ClientCommand.spid name) n h = rw (h name refl) refl
chosen-word ClientCommand.pid n h = refl
chosen-word ClientCommand.quit n h = refl
chosen-word ClientCommand.version n h = refl
chosen-word ClientCommand.version_check n h = refl

plain_command-word :
    (t : String) (cmd : ClientCommand)
    → plain_command t ≡ some cmd
    → (t ≡ word cmd) × (named cmd ≡ none)
unfolding plain_command word named
plain_command-word t cmd e = grind (arith, e, eq_iff t)

-- One test of a chain: what holds of its command, and of those after it.
branch :
    (P : ClientCommand → Type 0) (t w : String) (c cmd : ClientCommand)
    (rest : Option ClientCommand)
    → (t ≡ w → P c)
    → (rest ≡ some cmd → P cmd)
    → (if t == w then some c else rest) ≡ some cmd
    → P cmd
branch P t w c cmd rest here later e = elim (Bool-cases (t == w)) [
  | inl hit ↦ let same : c ≡ cmd = grind (arith, e, hit) in subst P same (here ((eq_iff t w).0 hit))
  | inr miss ↦ later (grind (arith, e, miss))
]

service_command-word :
    (t name : String) (cmd : ClientCommand)
    → service_command t name ≡ some cmd
    → (t ≡ word cmd) × (named cmd ≡ some name)
unfolding service_command word named
service_command-word t name cmd =
    let P = λ (c : ClientCommand). (t ≡ word c) × (named c ≡ some name) in
    branch P t "status" _ cmd _ (λ e. (e, refl))
      (branch P t "spid" _ cmd _ (λ e. (e, refl))
        (branch P t "start" _ cmd _ (λ e. (e, refl))
          (branch P t "stop" _ cmd _ (λ e. (e, refl))
            (branch P t "reload" _ cmd _ (λ e. (e, refl))
              (branch P t "restart" _ cmd _ (λ e. (e, refl))
                (branch P t "pause" _ cmd _ (λ e. (e, refl))
                  (branch P t "resume" _ cmd _ (λ e. (e, refl)) (λ e. absurd (ground arith)))))))))

load_config-chosen :
    (to_lowercase : String → String) (args : Cli)
    → load_config to_lowercase args
      ≡ at_socket args.sock (chosen (trim (to_lowercase args.command)) args.name)
unfolding load_config chosen at_socket
load_config-chosen to_lowercase args = ground arith

written :
    (t : String) (name : Option String) (cmd : ClientCommand)
    → chosen t name ≡ some cmd
    → (t ≡ word cmd) × ((n : String) → named cmd ≡ some n → name ≡ some n)
unfolding chosen
written t name cmd e = elim (Option-cases (plain_command t)) [
  | inr (plain, p) ↦
      let same : plain ≡ cmd = grind (arith, e, p) in
      let (w, none_named) = plain_command-word t cmd (p ∙ ap some same) in
      (w, λ n h. absurd (grind (arith, none_named, h)))
  | inl p ↦ elim (Option-cases name) [
    | inl nameless ↦ absurd (grind (arith, e, p, nameless))
    | inr (n, given) ↦
        let (w, has) = service_command-word t n cmd (grind (arith, e, p, given)) in
        (w, λ n' h. given ∙ sym has ∙ h)
  ]
]

chosen_iff :
    (t : String) (name : Option String) (cmd : ClientCommand)
    → (chosen t name ≡ some cmd)
      ↔ ((t ≡ word cmd) × ((n : String) → named cmd ≡ some n → name ≡ some n))
chosen_iff t name cmd = (written t name cmd, λ (w, h). rw w (chosen-word cmd name h))

paired :
    (sock sock' : String) (c : Option ClientCommand) (cmd : ClientCommand)
    → at_socket sock c ≡ some (cmd, sock')
    → (sock ≡ sock') × (c ≡ some cmd)
unfolding at_socket
paired sock sock' c cmd e = ground arith

-- The client runs a command just where that command is written on the command line, with the name of
-- its service if it has one, in whatever case and with whatever white space around it; and it runs it
-- on the socket of the command line.
pub load_config_iff :
    (to_lowercase : String → String) (args : Cli) (cmd : ClientCommand) (sock : String)
    → (load_config to_lowercase args ≡ some (cmd, sock))
      ↔ ((args.sock ≡ sock) × IsWritten to_lowercase args cmd)
unfolding at_socket
load_config_iff to_lowercase args cmd sock =
    let t = trim (to_lowercase args.command) in
    let whole = load_config-chosen to_lowercase args in
    let (forth, back) = chosen_iff t args.name cmd in
    (
      λ e.
          let (s, c) = paired args.sock sock (chosen t args.name) cmd (sym whole ∙ e) in
          (s, forth c),
      λ (s, h). whole ∙ rw (back h, s) refl,
    )
