-- ===== src/Ac108/Registers.antt =====
-- The registers of the AC108 and the bit positions in them, as include/ac10x/ac108.h names them.
use j_a_r_v_i_s.Prelude.{ℕ}

abbrev pub chip_rst : ℕ
chip_rst = 0x00

abbrev pub chip_rst_val : ℕ
chip_rst_val = 0x12

abbrev pub pwr_ctrl6 : ℕ
pwr_ctrl6 = 0x06

abbrev pub pwr_ctrl7 : ℕ
pwr_ctrl7 = 0x07

abbrev pub pwr_ctrl9 : ℕ
pwr_ctrl9 = 0x09

abbrev pub pll_ctrl1 : ℕ
pll_ctrl1 = 0x10

abbrev pub pll_ctrl2 : ℕ
pll_ctrl2 = 0x11

abbrev pub pll_ctrl3 : ℕ
pll_ctrl3 = 0x12

abbrev pub pll_ctrl4 : ℕ
pll_ctrl4 = 0x13

abbrev pub pll_ctrl5 : ℕ
pll_ctrl5 = 0x14

abbrev pub pll_lock_ctrl : ℕ
pll_lock_ctrl = 0x18

abbrev pub sysclk_ctrl : ℕ
sysclk_ctrl = 0x20

abbrev pub mod_clk_en : ℕ
mod_clk_en = 0x21

abbrev pub mod_rst_ctrl : ℕ
mod_rst_ctrl = 0x22

abbrev pub i2s_ctrl : ℕ
i2s_ctrl = 0x30

abbrev pub i2s_bclk_ctrl : ℕ
i2s_bclk_ctrl = 0x31

abbrev pub i2s_lrck_ctrl1 : ℕ
i2s_lrck_ctrl1 = 0x32

abbrev pub i2s_lrck_ctrl2 : ℕ
i2s_lrck_ctrl2 = 0x33

abbrev pub i2s_fmt_ctrl1 : ℕ
i2s_fmt_ctrl1 = 0x34

abbrev pub i2s_fmt_ctrl2 : ℕ
i2s_fmt_ctrl2 = 0x35

abbrev pub i2s_fmt_ctrl3 : ℕ
i2s_fmt_ctrl3 = 0x36

abbrev pub i2s_tx1_ctrl1 : ℕ
i2s_tx1_ctrl1 = 0x38

abbrev pub i2s_tx1_ctrl2 : ℕ
i2s_tx1_ctrl2 = 0x39

abbrev pub i2s_tx1_ctrl3 : ℕ
i2s_tx1_ctrl3 = 0x3A

abbrev pub i2s_tx1_chmp_ctrl1 : ℕ
i2s_tx1_chmp_ctrl1 = 0x3C

abbrev pub i2s_tx1_chmp_ctrl2 : ℕ
i2s_tx1_chmp_ctrl2 = 0x3D

abbrev pub i2s_tx1_chmp_ctrl3 : ℕ
i2s_tx1_chmp_ctrl3 = 0x3E

abbrev pub i2s_tx1_chmp_ctrl4 : ℕ
i2s_tx1_chmp_ctrl4 = 0x3F

abbrev pub adc_sprc : ℕ
adc_sprc = 0x60

abbrev pub hpf_en : ℕ
hpf_en = 0x66

abbrev pub ana_adc1_ctrl1 : ℕ
ana_adc1_ctrl1 = 0xA0

abbrev pub ana_adc2_ctrl1 : ℕ
ana_adc2_ctrl1 = 0xA7

abbrev pub ana_adc3_ctrl1 : ℕ
ana_adc3_ctrl1 = 0xAE

abbrev pub ana_adc4_ctrl1 : ℕ
ana_adc4_ctrl1 = 0xB5

abbrev pub ldo33ana_enable : ℕ
ldo33ana_enable = 0

abbrev pub vref_sel : ℕ
vref_sel = 3

abbrev pub vref_faststart_enable : ℕ
vref_faststart_enable = 1

abbrev pub vref_enable : ℕ
vref_enable = 0

abbrev pub vrefp_faststart_enable : ℕ
vrefp_faststart_enable = 7

abbrev pub vrefp_resctrl : ℕ
vrefp_resctrl = 5

abbrev pub igen_trim : ℕ
igen_trim = 1

abbrev pub vrefp_enable : ℕ
vrefp_enable = 0

abbrev pub pll_com_en : ℕ
pll_com_en = 1

abbrev pub pll_en : ℕ
pll_en = 0

abbrev pub pll_prediv2 : ℕ
pll_prediv2 = 5

abbrev pub pll_prediv1 : ℕ
pll_prediv1 = 0

abbrev pub pll_loopdiv_msb : ℕ
pll_loopdiv_msb = 0

abbrev pub pll_loopdiv_lsb : ℕ
pll_loopdiv_lsb = 0

abbrev pub pll_postdiv2 : ℕ
pll_postdiv2 = 5

abbrev pub pll_postdiv1 : ℕ
pll_postdiv1 = 0

abbrev pub pll_lock_en : ℕ
pll_lock_en = 0

abbrev pub pllclk_en : ℕ
pllclk_en = 7

abbrev pub pllclk_src : ℕ
pllclk_src = 4

abbrev pub sysclk_src : ℕ
sysclk_src = 3

abbrev pub sysclk_en : ℕ
sysclk_en = 0

abbrev pub i2s : ℕ
i2s = 7

abbrev pub adc_digital : ℕ
adc_digital = 4

abbrev pub mic_offset_calibration : ℕ
mic_offset_calibration = 1

abbrev pub adc_analog : ℕ
adc_analog = 0

abbrev pub bclk_ioen : ℕ
bclk_ioen = 7

abbrev pub lrck_ioen : ℕ
lrck_ioen = 6

abbrev pub sdo1_en : ℕ
sdo1_en = 4

abbrev pub txen : ℕ
txen = 2

abbrev pub gen : ℕ
gen = 0

abbrev pub bclk_polarity : ℕ
bclk_polarity = 4

abbrev pub bclkdiv : ℕ
bclkdiv = 0

abbrev pub lrck_polarity : ℕ
lrck_polarity = 4

abbrev pub encd_sel : ℕ
encd_sel = 6

abbrev pub mode_sel : ℕ
mode_sel = 4

abbrev pub tx2_offset : ℕ
tx2_offset = 3

abbrev pub tx1_offset : ℕ
tx1_offset = 2

abbrev pub tx_slot_hiz : ℕ
tx_slot_hiz = 1

abbrev pub tx_state : ℕ
tx_state = 0

abbrev pub slot_width_sel : ℕ
slot_width_sel = 4

abbrev pub sample_resolution : ℕ
sample_resolution = 0

abbrev pub tx_mls : ℕ
tx_mls = 7

abbrev pub sext : ℕ
sext = 5

abbrev pub lrck_width : ℕ
lrck_width = 2

abbrev pub tx_pdm : ℕ
tx_pdm = 0

abbrev pub adc_fs_i2s1 : ℕ
adc_fs_i2s1 = 0

abbrev pub adc1_micbias_en : ℕ
adc1_micbias_en = 0

abbrev pub adc2_micbias_en : ℕ
adc2_micbias_en = 0

abbrev pub adc3_micbias_en : ℕ
adc3_micbias_en = 0

abbrev pub adc4_micbias_en : ℕ
adc4_micbias_en = 0

abbrev pub sysclk_src_mclk : ℕ
sysclk_src_mclk = 0

abbrev pub sysclk_src_pll : ℕ
sysclk_src_pll = 1

abbrev pub bclk_normal_drive_n_sample_p : ℕ
bclk_normal_drive_n_sample_p = 0

abbrev pub bclk_invert_drive_p_sample_n : ℕ
bclk_invert_drive_p_sample_n = 1

abbrev pub lrck_left_low_right_high : ℕ
lrck_left_low_right_high = 0

abbrev pub lrck_left_high_right_low : ℕ
lrck_left_high_right_low = 1

abbrev pub pcm_format : ℕ
pcm_format = 0

abbrev pub left_justified_format : ℕ
left_justified_format = 1

abbrev pub right_justified_format : ℕ
right_justified_format = 2
