-- ===== src/User/Tests.antt =====
-- The theorems on the user programs at a state that the initialisation leaves.
use nbos.Screen.{Screen, clear_cells, set_cursor}
use nbos.System.{System}
use nbos.System.Tests.{state, screen}
use nbos.User.Shell.{ShellData}

abbrev shell_data : ShellData
shell_data = record {
  shell_text = 0x3000;
  prompt_text = 0x300d;
  not_found_text = 0x3015;
  command = 0xbfff_0000;
  path = 0xbfff_0020;
  argv = 0xbfff_0040;
  envp = 0xbfff_0048;
  statloc = 0;
}

abbrev blank : Screen
blank = record (set_cursor 0 (clear_cells 2000 0 (record screen { video_lock = 1 }))) {
  video_lock = 0;
}

-- The shell's first call, after which a program writes to its memory.
abbrev greeting : System
greeting = record state { screen = blank }
