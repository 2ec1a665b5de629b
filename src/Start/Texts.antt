-- ===== src/Start/Texts.antt =====
-- The lines that the kernel prints while it starts.
use nbos.Base.{[], ◌∷◌}
use nbos.Interrupt.Setup.{Text}

-- "Kernel is working!\n"
abbrev pub kernel_is_working : Text
kernel_is_working =
    75 ∷ 101 ∷ 114 ∷ 110 ∷ 101 ∷ 108 ∷ 32 ∷ 105 ∷ 115 ∷ 32 ∷ 119 ∷ 111 ∷ 114 ∷ 107 ∷ 105 ∷ 110 ∷ 103
    ∷ 33 ∷ 10 ∷ []

-- "Initial memory!\n"
abbrev pub initial_memory : Text
initial_memory =
    73 ∷ 110 ∷ 105 ∷ 116 ∷ 105 ∷ 97 ∷ 108 ∷ 32 ∷ 109 ∷ 101 ∷ 109 ∷ 111 ∷ 114 ∷ 121 ∷ 33 ∷ 10 ∷ []

-- "Init_memory done!\n"
abbrev pub init_memory_done : Text
init_memory_done =
    73 ∷ 110 ∷ 105 ∷ 116 ∷ 95 ∷ 109 ∷ 101 ∷ 109 ∷ 111 ∷ 114 ∷ 121 ∷ 32 ∷ 100 ∷ 111 ∷ 110 ∷ 101 ∷ 33
    ∷ 10 ∷ []

-- "Initial PIC!\n"
abbrev pub initial_pic : Text
initial_pic = 73 ∷ 110 ∷ 105 ∷ 116 ∷ 105 ∷ 97 ∷ 108 ∷ 32 ∷ 80 ∷ 73 ∷ 67 ∷ 33 ∷ 10 ∷ []

-- "Init_pic done!\n"
abbrev pub init_pic_done : Text
init_pic_done =
    73 ∷ 110 ∷ 105 ∷ 116 ∷ 95 ∷ 112 ∷ 105 ∷ 99 ∷ 32 ∷ 100 ∷ 111 ∷ 110 ∷ 101 ∷ 33 ∷ 10 ∷ []

-- "Initial interrupt!\n"
abbrev pub initial_interrupt : Text
initial_interrupt =
    73 ∷ 110 ∷ 105 ∷ 116 ∷ 105 ∷ 97 ∷ 108 ∷ 32 ∷ 105 ∷ 110 ∷ 116 ∷ 101 ∷ 114 ∷ 114 ∷ 117 ∷ 112 ∷ 116
    ∷ 33 ∷ 10 ∷ []

-- "Init_interrupt done!\n"
abbrev pub init_interrupt_done : Text
init_interrupt_done =
    73 ∷ 110 ∷ 105 ∷ 116 ∷ 95 ∷ 105 ∷ 110 ∷ 116 ∷ 101 ∷ 114 ∷ 114 ∷ 117 ∷ 112 ∷ 116 ∷ 32 ∷ 100 ∷ 111
    ∷ 110 ∷ 101 ∷ 33 ∷ 10 ∷ []

-- "Initial TSS!\n"
abbrev pub initial_tss : Text
initial_tss = 73 ∷ 110 ∷ 105 ∷ 116 ∷ 105 ∷ 97 ∷ 108 ∷ 32 ∷ 84 ∷ 83 ∷ 83 ∷ 33 ∷ 10 ∷ []

-- "Init_tss done!\n"
abbrev pub init_tss_done : Text
init_tss_done =
    73 ∷ 110 ∷ 105 ∷ 116 ∷ 95 ∷ 116 ∷ 115 ∷ 115 ∷ 32 ∷ 100 ∷ 111 ∷ 110 ∷ 101 ∷ 33 ∷ 10 ∷ []

-- "Initial FILE SYSTEM!\n"
abbrev pub initial_file_system : Text
initial_file_system =
    73 ∷ 110 ∷ 105 ∷ 116 ∷ 105 ∷ 97 ∷ 108 ∷ 32 ∷ 70 ∷ 73 ∷ 76 ∷ 69 ∷ 32 ∷ 83 ∷ 89 ∷ 83 ∷ 84 ∷ 69
    ∷ 77 ∷ 33 ∷ 10 ∷ []

-- "Initial_fileSYS Done!\n"
abbrev pub initial_file_sys_done : Text
initial_file_sys_done =
    73 ∷ 110 ∷ 105 ∷ 116 ∷ 105 ∷ 97 ∷ 108 ∷ 95 ∷ 102 ∷ 105 ∷ 108 ∷ 101 ∷ 83 ∷ 89 ∷ 83 ∷ 32 ∷ 68
    ∷ 111 ∷ 110 ∷ 101 ∷ 33 ∷ 10 ∷ []

-- "Initial PCB!\n"
abbrev pub initial_pcb : Text
initial_pcb = 73 ∷ 110 ∷ 105 ∷ 116 ∷ 105 ∷ 97 ∷ 108 ∷ 32 ∷ 80 ∷ 67 ∷ 66 ∷ 33 ∷ 10 ∷ []

-- "Initial_pcb Done!\n"
abbrev pub initial_pcb_done : Text
initial_pcb_done =
    73 ∷ 110 ∷ 105 ∷ 116 ∷ 105 ∷ 97 ∷ 108 ∷ 95 ∷ 112 ∷ 99 ∷ 98 ∷ 32 ∷ 68 ∷ 111 ∷ 110 ∷ 101 ∷ 33 ∷ 10
    ∷ []
