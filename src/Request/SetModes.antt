-- ===== src/Request/SetModes.antt =====
-- The functions that fill in the modes of a request: core/NormalRgaApi.cpp. A function that always
-- returns the same number is its effect on the request.
use librga_rockchip.Base.{ℕ, ◌+◌, ◌*◌, ◌%◌, ◌^◌, Bool, ◌||◌, ◌&&◌, ◌==◌, if◌then◌else◌}
use librga_rockchip.Base.Bits.{bit_or}
use librga_rockchip.Base.Words.{uint8, uint16, uint32, uint64, field}
use librga_rockchip.Request.{Req, ColorFill}
use librga_rockchip.Request.Info.{Nn, Dither}
use librga_rockchip.Request.Trig.{sina_table, cosa_table, entry}
use librga_rockchip.Request.Setters.{bitblt_mode, color_fill_mode}

-- The part of normal_rga_set_bitblt_mode for anti-aliased rotations.
abbrev set_aa : Req → Req
set_aa msg =
    if field msg.alpha_rop_flag 0 2 == 1
    then (if field msg.alpha_rop_mode 0 2 == 0
        then record msg { alpha_rop_mode = 2 }
        else if field msg.alpha_rop_mode 0 2 == 1
        then record msg { alpha_rop_mode = 1 }
        else msg)
    else record msg { alpha_rop_flag = bit_or msg.alpha_rop_flag 1; alpha_rop_mode = 1 }

-- struct rga_interp is the pair of its fields.
unfoldable pub normal_rga_set_bitblt_mode : Req → ℕ × ℕ → ℕ → ℕ → ℕ → ℕ → ℕ → Req
normal_rga_set_bitblt_mode req (horiz, verti) rotate_mode angle dither_en aa_en yuv2rgb_mode =
    let msg = record req {
      render_mode = bitblt_mode;
      scale_mode = horiz % 2 ^ 4 + verti % 2 ^ 4 * 2 ^ 4;
      rotate_mode = uint8 rotate_mode;
      sina = entry sina_table angle;
      cosa = entry cosa_table angle;
      yuv2rgb_mode = uint8 yuv2rgb_mode;
      alpha_rop_flag =
          bit_or (bit_or req.alpha_rop_flag (dither_en % 2 * 2 ^ 5)) (aa_en % 2 * 2 ^ 7);
    } in
    let msg' = if uint8 rotate_mode == 1 && aa_en == 1 then set_aa msg else msg in
    if req.src_trans_mode == 0 then msg' else record msg' { scale_mode = 0 }

-- ((int)(x * 256.0)) & 0xffff, which is exact for an int16_t.
abbrev times_256 : ColorFill → ColorFill
times_256 c = record {
  gr_x_a = uint16 (c.gr_x_a * 256);
  gr_y_a = uint16 (c.gr_y_a * 256);
  gr_x_b = uint16 (c.gr_x_b * 256);
  gr_y_b = uint16 (c.gr_y_b * 256);
  gr_x_g = uint16 (c.gr_x_g * 256);
  gr_y_g = uint16 (c.gr_y_g * 256);
  gr_x_r = uint16 (c.gr_x_r * 256);
  gr_y_r = uint16 (c.gr_y_r * 256);
}

unfoldable pub normal_rga_set_color_fill_mode :
    Req → ColorFill → ℕ → ℕ → ℕ → ℕ → ℕ → ℕ → ℕ → ℕ → Req
normal_rga_set_color_fill_mode req gr_color gr_satur_mode cf_mode color pat_width pat_height
      pat_x_off pat_y_off aa_en =
    let msg = record req {
      render_mode = color_fill_mode;
      gr_color = times_256 gr_color;
      color_fill_mode = uint8 cf_mode;
      pat = record req.pat {
        act_w = uint16 pat_width;
        act_h = uint16 pat_height;
        x_offset = uint8 pat_x_off;
        y_offset = uint8 pat_y_off;
      };
      fg_color = uint32 color;
      alpha_rop_flag = bit_or req.alpha_rop_flag (gr_satur_mode % 2 * 2 ^ 6);
    } in
    if aa_en == 0
    then msg
    else record msg { alpha_rop_flag = bit_or msg.alpha_rop_flag 1; alpha_rop_mode = 1 }

unfoldable pub normal_rga_mmu_info : Req → ℕ → ℕ → ℕ → ℕ → ℕ → ℕ → Req
normal_rga_mmu_info req mmu_en src_flush dst_flush cmd_flush base_addr page_size = record req {
  mmu_info = record req.mmu_info {
    mmu_en = uint8 mmu_en;
    base_addr = uint64 base_addr;
    mmu_flag =
        bit_or
          (bit_or
            (bit_or (bit_or (page_size % 4 * 2 ^ 4) (cmd_flush % 2 * 2 ^ 3))
              (dst_flush % 2 * 2 ^ 2))
            (src_flush % 2 * 2))
          (uint8 mmu_en);
  };
}

-- if (on) msg->mmu_info.mmu_flag |= bits;
abbrev pub or_mmu_flag : Req → Bool → ℕ → Req
or_mmu_flag req on bits =
    if on
    then record req {
      mmu_info = record req.mmu_info { mmu_flag = bit_or req.mmu_info.mmu_flag bits };
    }
    else req

unfoldable pub normal_rga_mmu_flag : Req → Bool → Bool → Req
normal_rga_mmu_flag req src_mmu_en dst_mmu_en =
    or_mmu_flag
      (or_mmu_flag (or_mmu_flag req (src_mmu_en || dst_mmu_en) (2 ^ 31)) src_mmu_en (2 ^ 8))
      dst_mmu_en (2 ^ 10)

unfoldable pub normal_rga_nn_quantize_mode : Req → Nn → Req
normal_rga_nn_quantize_mode req nn =
    if nn.nn_flag == 1
    then record req {
      alpha_rop_flag = bit_or req.alpha_rop_flag (2 ^ 8);
      gr_color = record req.gr_color {
        gr_x_r = uint16 nn.scale_r;
        gr_x_g = uint16 nn.scale_g;
        gr_x_b = uint16 nn.scale_b;
        gr_y_r = uint16 nn.offset_r;
        gr_y_g = uint16 nn.offset_g;
        gr_y_b = uint16 nn.offset_b;
      };
    }
    else req

-- The format is that of the target's rectangle: RK_FORMAT_Y4 or RK_FORMAT_Y8 if `is_y4_y8`.
unfoldable pub normal_rga_dither_mode : Req → Dither → Bool → Req
normal_rga_dither_mode req dither is_y4_y8 =
    let msg =
      if dither.enable == 1 then record req { alpha_rop_flag = bit_or 1 (2 ^ 5) } else req in
    if is_y4_y8
    then record msg {
      dither_mode = uint8 dither.mode;
      gr_color = record msg.gr_color {
        gr_x_r = uint16 dither.lut0_l;
        gr_x_g = uint16 dither.lut0_h;
        gr_y_r = uint16 dither.lut1_l;
        gr_y_g = uint16 dither.lut1_h;
      };
    }
    else msg
