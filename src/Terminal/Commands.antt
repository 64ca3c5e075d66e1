-- ===== src/Terminal/Commands.antt =====
-- The menus of the command line client: the lines of `mainMenu`, and the choices of `main`.
use qt_chat.Base.{ℕ, ◌-◌, Bool, true, ◌&&◌, ◌||◌, [], ◌∷◌, Option, none, some}
use qt_chat.Base.Tests.{if◌then◌else◌, ◌==◌, ltb}
use qt_chat.Base.Lists.{Str, codes, is_empty}
use qt_chat.Base.Map.{Map, lookup, str_key}
use qt_chat.Config.{split_at}
use qt_chat.Server.Api.{JsonApi}
use qt_chat.Terminal.{
  Cli, prints, Stage, choosing, waiting_login, waiting_reg, in_menu, ended, tell,
}
use qt_chat.Terminal.Requests.{
  addfriend, addgroup, chat, groupchat, creategroup, loginout_command, help,
}

-- " \t\r\n"
unfoldable pub is_space : ℕ → Bool
is_space c = c == 32 || c == 9 || c == 13 || c == 10

unfoldable pub skip_spaces : Str → Str
unfolding is_space
skip_spaces [] = []
skip_spaces (c ∷ s) = let rest = skip_spaces s in if is_space c then rest else c ∷ s

unfoldable pub strip_end : Str → Str
unfolding is_space
strip_end [] = []
strip_end (c ∷ s) = let rest = strip_end s in if is_empty rest && is_space c then [] else c ∷ rest

module _ (J : JsonApi) where
  -- `commandHandlerMap`
  unfoldable pub command_handlers : Bool → Str → Map Str (Str → Cli → Cli)
  unfolding addfriend addgroup chat groupchat creategroup loginout_command help
  command_handlers sent_ok stamp =
      (codes "help", λ str. help J)
      ∷ (codes "chat", chat J stamp)
      ∷ (codes "addfriend", addfriend J)
      ∷ (codes "creategroup", creategroup J)
      ∷ (codes "addgroup", addgroup J)
      ∷ (codes "groupchat", groupchat J stamp)
      ∷ (codes "loginout", λ str. loginout_command J sent_ok)
      ∷ []

  abbrev pub run_command : Option (Str → Cli → Cli) → Str → Cli → Cli
  unfolding tell
  run_command none str c = tell (prints (codes "invalid input command!")) c
  run_command (some h) str c = h str c

  -- The command stands before the first colon, and the rest is the handler's text; without a colon
  -- the handler gets the whole line.
  abbrev pub dispatch : Bool → Str → Str → Option (Str × Str) → Cli → Cli
  unfolding command_handlers tell
  dispatch sent_ok stamp line none = run_command (lookup line (command_handlers sent_ok stamp)) line
  dispatch sent_ok stamp line (some (command, rest)) =
      run_command (lookup command (command_handlers sent_ok stamp)) rest

  abbrev pub on_text : Bool → Str → Str → Cli → Cli
  unfolding command_handlers tell split_at
  on_text sent_ok stamp [] c = c
  on_text sent_ok stamp (b ∷ s) c = dispatch sent_ok stamp (b ∷ s) (split_at 58 (b ∷ s)) c

  -- One round of `mainMenu`, on a line of at most 1023 bytes.
  unfoldable pub on_line : Bool → Str → Str → Cli → Cli
  unfolding skip_spaces strip_end command_handlers tell split_at
  on_line sent_ok stamp line = on_text sent_ok stamp (strip_end (skip_spaces line))

  -- After `sem_wait`: the login enters `mainMenu` if it succeeded, else the first menu goes on.
  abbrev pub resume : Stage → Cli → Cli
  unfolding help
  resume waiting_login c =
      if c.logged_in
      then help J (record c { running = true; place = in_menu })
      else record c { place = choosing }
  resume waiting_reg c = record c { place = choosing }
  resume choosing c = c
  resume in_menu c = c
  resume ended c = c

  -- `sem_wait` of the main thread, which blocks at 0.
  unfoldable pub wake : Cli → Cli
  unfolding help
  wake c = if ltb 0 c.posts then resume c.place (record c { posts = c.posts - 1 }) else c
