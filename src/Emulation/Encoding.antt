-- ===== src/Emulation/Encoding.antt =====
-- The masks and match values of bbl/encoding.h that the emulation tests.
use lowrisc_kc.Base.{ℕ, Bool, bit_and, ◌==◌}

-- (insn & MASK) == MATCH.
abbrev pub matches : ℕ → ℕ → ℕ → Bool
matches insn mask value = bit_and insn mask == value

abbrev pub mask_mul : ℕ
mask_mul = 0xfe00707f

abbrev pub match_mul : ℕ
match_mul = 0x2000033

abbrev pub match_mulh : ℕ
match_mulh = 0x2001033

abbrev pub match_mulhsu : ℕ
match_mulhsu = 0x2002033

abbrev pub match_mulhu : ℕ
match_mulhu = 0x2003033

abbrev pub match_div : ℕ
match_div = 0x2004033

abbrev pub match_divu : ℕ
match_divu = 0x2005033

abbrev pub match_rem : ℕ
match_rem = 0x2006033

abbrev pub match_remu : ℕ
match_remu = 0x2007033

abbrev pub match_mulw : ℕ
match_mulw = 0x200003b

-- The masks of the loads and stores are all one.
abbrev pub mask_lw : ℕ
mask_lw = 0x707f

abbrev pub match_lw : ℕ
match_lw = 0x2003

abbrev pub match_ld : ℕ
match_ld = 0x3003

abbrev pub match_lwu : ℕ
match_lwu = 0x6003

abbrev pub match_fld : ℕ
match_fld = 0x3007

abbrev pub match_flw : ℕ
match_flw = 0x2007

abbrev pub match_lh : ℕ
match_lh = 0x1003

abbrev pub match_lhu : ℕ
match_lhu = 0x5003

abbrev pub match_sw : ℕ
match_sw = 0x2023

abbrev pub match_sd : ℕ
match_sd = 0x3023

abbrev pub match_sh : ℕ
match_sh = 0x1023

abbrev pub match_fsd : ℕ
match_fsd = 0x3027

abbrev pub match_fsw : ℕ
match_fsw = 0x2027

abbrev pub mask_fmv : ℕ
mask_fmv = 0xfff0707f

abbrev pub match_fmv_x_s : ℕ
match_fmv_x_s = 0xe0000053

abbrev pub match_fmv_x_d : ℕ
match_fmv_x_d = 0xe2000053

abbrev pub match_fmv_s_x : ℕ
match_fmv_s_x = 0xf0000053

abbrev pub match_fmv_d_x : ℕ
match_fmv_d_x = 0xf2000053
