-- ===== src/Task/Modes.antt =====
-- The modes of a task: the part of rga_task_submit of im2d_api/src/im2d_impl.cpp that turns usage
-- flags and options into fields of rga_info_t.
use librga_rockchip.Base.{
  ℕ, ◌*◌, ◌^◌, Bool, true, false, ◌||◌, ◌&&◌, ◌==◌, if◌then◌else◌, [], ◌∷◌, switch,
}
use librga_rockchip.Base.Bits.{bit_or, test_bit}
use librga_rockchip.Base.Words.{uint8, uint16, field}
use librga_rockchip.Format.{
  code, case_in, rgba_5551, bgra_5551, argb_5551, abgr_5551, rgba2bpp, y4, y8,
}
use librga_rockchip.Check.{
  Buffer, uses, blends, im_alpha_bit_map, im_osd, im_nn_quantize, im_rop, im_mosaic, im_pre_intr,
}
use librga_rockchip.Request.{OsdInfo, OsdModeCtrl}
use librga_rockchip.Request.Info.{Info}
use librga_rockchip.Request.Plan.{flip_h, flip_v, flip_h_v, rot_90, rot_180, rot_270}
use librga_rockchip.Task.Options.{Opt, ImOsd}

-- scale_mode, from opt.interp.
unfoldable pub interp_mode : ℕ → ℕ
interp_mode interp =
    if test_bit interp 8 || test_bit interp 9
    then bit_or (if test_bit interp 8 then field interp 0 4 else 0)
        (if test_bit interp 9 then field interp 4 4 * 2 ^ 4 else 0)
    else bit_or (field interp 0 4) (field interp 0 4 * 2 ^ 4)

-- The two switch statements of the transformation; a flip after a rotation is shifted.
abbrev pub rotation_of : ℕ → ℕ
rotation_of turn = switch turn ((1, rot_90) ∷ (2, rot_180) ∷ (4, rot_270) ∷ []) 0

abbrev pub flip_of : ℕ → ℕ
flip_of flip = switch flip ((1, flip_h) ∷ (2, flip_v) ∷ (4, flip_h_v) ∷ []) 0

abbrev pub turn_word : ℕ → ℕ → ℕ
turn_word turn flip =
    bit_or (rotation_of turn) (if rotation_of turn == 0 then flip_of flip else flip_of flip * 2 ^ 4)

unfoldable pub transform : ℕ → ℕ
transform usage = turn_word (field usage 0 3) (field usage 3 3)

-- The alpha of a pixel with one bit of it. `alpha_bit` is in the place of `global_alpha`.
unfoldable pub set_alpha_bit : Info → Buffer → ℕ → Info
unfolding code case_in
set_alpha_bit info pat usage =
    if uses usage im_alpha_bit_map
      && case_in pat.format (rgba_5551 ∷ bgra_5551 ∷ argb_5551 ∷ abgr_5551 ∷ [])
    then record info {
      rgba5551_flags = 1;
      rgba5551_alpha0 = field pat.global_alpha 0 8;
      rgba5551_alpha1 = field pat.global_alpha 16 8;
    }
    else info

-- RGA_ALPHA_BLEND_*, from the flags SRC_OVER, SRC, DST, SRC_IN, DST_IN, SRC_OUT, DST_OUT, DST_OVER,
-- SRC_ATOP, DST_ATOP and XOR.
unfoldable pub blend_mode : ℕ → ℕ
blend_mode usage =
    switch (field usage 6 11)
      ((2 ^ 1, 1)
        ∷ (2 ^ 2, 2)
        ∷ (2 ^ 0, 3)
        ∷ (2 ^ 7, 4)
        ∷ (2 ^ 3, 5)
        ∷ (2 ^ 4, 6)
        ∷ (2 ^ 5, 7)
        ∷ (2 ^ 6, 8)
        ∷ (2 ^ 8, 9)
        ∷ (2 ^ 9, 10)
        ∷ (2 ^ 10, 11)
        ∷ [])
      0

-- The blend word, with the global alphas of the source and the target in its upper half.
unfoldable pub blend_word : Buffer → Buffer → ℕ → ℕ
unfolding blend_mode
blend_word src dst usage =
    if blends usage
    then bit_or
        (bit_or (bit_or (blend_mode usage) (if test_bit usage 25 then 2 ^ 12 else 0))
          (field src.global_alpha 0 8 * 2 ^ 16))
        (field dst.global_alpha 0 8 * 2 ^ 24)
    else 0

-- The color key; a task without a blend gets one.
unfoldable pub set_colorkey : Info → Opt → ℕ → Info
set_colorkey info opt usage = if field usage 17 2 == 0 then info else record info {
  blend = if field info.blend 0 12 == 0 then bit_or info.blend 0xffff1001 else info.blend;
  colorkey_en = 1;
  colorkey_min = opt.colorkey_min;
  colorkey_max = opt.colorkey_max;
  colorkey_mode = switch (field usage 17 2) ((1, 0) ∷ (2, 1) ∷ []) info.colorkey_mode;
}

-- invert_enable, from IM_OSD_INVERT_CHANNEL.
unfoldable pub invert_enable_of : ℕ → ℕ → ℕ
invert_enable_of channel old =
    switch channel ((0, 6) ∷ (1, 4) ∷ (2, 2) ∷ (4, 7) ∷ (3, 0) ∷ (7, 1) ∷ []) old

abbrev pub osd_mode_ctrl : OsdModeCtrl → ImOsd → OsdModeCtrl
osd_mode_ctrl ctrl osd =
    let block = osd.block_parm in
    let invert = osd.invert_config in
    record {
      mode = uint8 osd.osd_mode;
      width_mode = uint8 block.width_mode;
      block_fix_width = if block.width_mode == 0 then uint16 block.width else ctrl.block_fix_width;
      unfix_index = if block.width_mode == 1 then uint8 block.width else ctrl.unfix_index;
      block_num = uint8 block.block_count;
      default_color_sel = uint8 block.background_config;
      direction_mode = uint8 block.direction;
      color_mode = uint8 block.color_mode;
      invert_enable = invert_enable_of invert.invert_channel ctrl.invert_enable;
      invert_flags_mode = uint8 invert.flags_mode;
      flags_index = uint16 invert.flags_index;
      invert_mode = uint8 invert.invert_mode;
      invert_thresh = uint8 invert.threash;
    }

unfoldable pub osd_of : OsdInfo → ImOsd → ℕ → OsdInfo
unfolding invert_enable_of code
osd_of info osd pat_format =
    let block = osd.block_parm in
    let invert = osd.invert_config in
    record {
      enable = 1;
      mode_ctrl = osd_mode_ctrl info.mode_ctrl osd;
      bpp2_info =
          if pat_format == code rgba2bpp
          then osd.bpp2_info
          else record info.bpp2_info { color0 = block.normal_color; color1 = block.invert_color };
      last_flags = invert.invert_flags;
      cur_flags = invert.current_flags;
      cal_factor = if invert.invert_mode == 0 then invert.factor else info.cal_factor;
    }

unfoldable pub set_osd : Info → Opt → Buffer → ℕ → Info
unfolding osd_of
set_osd info opt pat usage =
    if uses usage im_osd
    then record info { osd_info = osd_of info.osd_info opt.osd_config pat.format }
    else info

-- NN quantization, on the target.
unfoldable pub set_nn : Info → Opt → ℕ → Info
set_nn info opt usage =
    if uses usage im_nn_quantize
    then record info {
      nn = record {
        nn_flag = 1;
        scale_r = opt.nn.scale_r;
        scale_g = opt.nn.scale_g;
        scale_b = opt.nn.scale_b;
        offset_r = opt.nn.offset_r;
        offset_g = opt.nn.offset_g;
        offset_b = opt.nn.offset_b;
      };
    }
    else info

-- ROP and mosaic.
unfoldable pub set_rop_mosaic : Info → Opt → ℕ → Info
set_rop_mosaic info opt usage =
    let roped = if uses usage im_rop then record info { rop_code = opt.rop_code } else info in
    if uses usage im_mosaic
    then record roped { mosaic_info = record { enable = 1; mode = uint8 opt.mosaic_mode } }
    else roped

-- if (on) then the new value, or else the old one.
abbrev pub set_if : Bool → ℕ → ℕ → ℕ
set_if true new old = new
set_if false new old = old

-- The interrupts before the end of the task.
unfoldable pub set_pre_intr : Info → Opt → ℕ → Info
set_pre_intr info opt usage =
    let old = info.pre_intr in
    let flags = opt.intr_config.flags in
    if uses usage im_pre_intr
    then record info {
      pre_intr = record {
        enable = 1;
        read_intr_en = set_if (test_bit flags 0) 1 0;
        read_hold_en = set_if (test_bit flags 0) (set_if (test_bit flags 1) 1 0) old.read_hold_en;
        read_threshold =
            set_if (test_bit flags 0) opt.intr_config.read_threshold old.read_threshold;
        write_intr_en = set_if (test_bit flags 2) 1 0;
        write_start = set_if (test_bit flags 2) opt.intr_config.write_start old.write_start;
        write_step = set_if (test_bit flags 2) opt.intr_config.write_step old.write_step;
      };
    }
    else info

-- The modes of the source, in the order of the code.
unfoldable pub source_modes : Info → Buffer → Buffer → Buffer → Opt → ℕ → Info
unfolding interp_mode transform set_alpha_bit blend_word set_colorkey set_osd set_rop_mosaic
    set_pre_intr
source_modes info src dst pat opt usage =
    let scaled = record info { scale_mode = interp_mode opt.interp } in
    let turned = record scaled { rotation = transform usage } in
    let bits = set_alpha_bit turned pat usage in
    let blended = record bits { blend = blend_word src dst usage } in
    let keyed = set_colorkey blended opt usage in
    set_pre_intr (set_rop_mosaic (set_osd keyed opt pat usage) opt usage) opt usage

-- Dithering of a target with a luma channel only, by the colour space word.
unfoldable pub set_dither : Info → Buffer → Info
unfolding code
set_dither info dst =
    let (enable, mode) =
      switch {A = ℕ × ℕ} dst.color_space_mode
        ((1 * 2 ^ 4, (0, 0)) ∷ (2 * 2 ^ 4, (1, 0)) ∷ (3 * 2 ^ 4, (1, 1)) ∷ []) (1, 0) in
    if dst.format == code y4 || dst.format == code y8
    then record info {
      dither = record {
        enable = enable;
        mode = mode;
        lut0_l = 0x3210;
        lut0_h = 0x7654;
        lut1_l = 0xba98;
        lut1_h = 0xfedc;
      };
    }
    else info
