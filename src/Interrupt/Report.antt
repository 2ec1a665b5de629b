-- ===== src/Interrupt/Report.antt =====
-- `general_intr_handler` and `do_page_fault` of interrupt.c, which print what happened. `behind` is what the
-- stack held where `printn` puts its digits.
use nbos.Base.{◌%◌, Option, List, [], ◌∷◌, ◌==◌, get_elem?, if◌then◌else◌}
use nbos.Base.Partial.{◌>>=◌}
use nbos.Base.Bytes.{Bytes}
use nbos.Process.{IntrContext}
use nbos.Screen.{Screen, print, printn}
use nbos.Interrupt.Setup.{Text}

-- "Exception Occur!\n"
abbrev exception_occur : Text
exception_occur =
    69 ∷ 120 ∷ 99 ∷ 101 ∷ 112 ∷ 116 ∷ 105 ∷ 111 ∷ 110 ∷ 32 ∷ 79 ∷ 99 ∷ 99 ∷ 117 ∷ 114 ∷ 33 ∷ 10 ∷ []

-- "Vector NO.:"
abbrev vector_no : Text
vector_no = 86 ∷ 101 ∷ 99 ∷ 116 ∷ 111 ∷ 114 ∷ 32 ∷ 78 ∷ 79 ∷ 46 ∷ 58 ∷ []

-- "\nException name:"
abbrev exception_name : Text
exception_name =
    10 ∷ 69 ∷ 120 ∷ 99 ∷ 101 ∷ 112 ∷ 116 ∷ 105 ∷ 111 ∷ 110 ∷ 32 ∷ 110 ∷ 97 ∷ 109 ∷ 101 ∷ 58 ∷ []

-- "\nError Code:"
abbrev error_code_text : Text
error_code_text = 10 ∷ 69 ∷ 114 ∷ 114 ∷ 111 ∷ 114 ∷ 32 ∷ 67 ∷ 111 ∷ 100 ∷ 101 ∷ 58 ∷ []

-- "\nCS\tEIP\tEFLAGS\n"
abbrev registers_text : Text
registers_text = 10 ∷ 67 ∷ 83 ∷ 9 ∷ 69 ∷ 73 ∷ 80 ∷ 9 ∷ 69 ∷ 70 ∷ 76 ∷ 65 ∷ 71 ∷ 83 ∷ 10 ∷ []

-- "\t"
abbrev tab : Text
tab = 9 ∷ []

-- "Other page fault!\n"
abbrev other_page_fault : Text
other_page_fault =
    79 ∷ 116 ∷ 104 ∷ 101 ∷ 114 ∷ 32 ∷ 112 ∷ 97 ∷ 103 ∷ 101 ∷ 32 ∷ 102 ∷ 97 ∷ 117 ∷ 108 ∷ 116 ∷ 33
    ∷ 10 ∷ []

-- "Page is not present!\n"
abbrev not_present : Text
not_present =
    80 ∷ 97 ∷ 103 ∷ 101 ∷ 32 ∷ 105 ∷ 115 ∷ 32 ∷ 110 ∷ 111 ∷ 116 ∷ 32 ∷ 112 ∷ 114 ∷ 101 ∷ 115 ∷ 101
    ∷ 110 ∷ 116 ∷ 33 ∷ 10 ∷ []

-- The three registers, with tabs between them.
unfoldable pub print_registers : Bytes → IntrContext → Screen → Option Screen
unfolding print printn
print_registers behind ptr s = do
  a ← print registers_text s
  b ← printn behind ptr.cs a
  c ← print tab b
  d ← printn behind ptr.eip c
  e ← print tab d
  printn behind ptr.eflags e

-- `general_intr_handler`, up to the instruction that halts the processor. `none` is a lock that is taken, or
-- a number behind the table of names.
unfoldable pub general_intr_handler : Bytes → List Text → IntrContext → Screen → Option Screen
unfolding print_registers
general_intr_handler behind intr_name ptr s = do
  a ← print exception_occur s
  b ← print vector_no a
  c ← printn behind ptr.inter_no b
  d ← print exception_name c
  name ← get_elem? intr_name ptr.inter_no
  e ← print name d
  f ← print error_code_text e
  g ← printn behind ptr.error_code f
  print_registers behind ptr g

-- The branch of `do_page_fault` for a page that is not present.
unfoldable pub print_missing_page : Bytes → IntrContext → Screen → Option Screen
unfolding print_registers
print_missing_page behind ptr s = do
  a ← print not_present s
  b ← print error_code_text a
  c ← printn behind ptr.error_code b
  print_registers behind ptr c

-- `do_page_fault`
unfoldable pub do_page_fault : Bytes → IntrContext → Screen → Option Screen
unfolding print_missing_page
do_page_fault behind ptr s =
    let missing = print_missing_page behind ptr s in
    if ptr.error_code % 2 == 1 then print other_page_fault s else missing
