-- ===== src/Request/Setters.antt =====
-- The functions that fill in the images, the areas and the colour key of a request:
-- core/NormalRgaApi.cpp. A function that always returns the same number is its effect on the request.
use librga_rockchip.Base.{ℕ, ◌*◌, ◌/◌, ◌%◌, ◌^◌}
use librga_rockchip.Base.Bits.{bit_or}
use librga_rockchip.Base.Words.{uint8, uint16, uint32, uint64}
use librga_rockchip.Request.{Req, Clip}

-- The modes of render_mode.
abbrev pub bitblt_mode : ℕ
bitblt_mode = 0

abbrev pub color_palette_mode : ℕ
color_palette_mode = 1

abbrev pub color_fill_mode : ℕ
color_fill_mode = 2

abbrev pub update_palette_table_mode : ℕ
update_palette_table_mode = 6

-- raster_mode of enum rd_mode
abbrev pub raster_mode : ℕ
raster_mode = 1

unfoldable pub normal_rga_set_src_active_info : Req → ℕ → ℕ → ℕ → ℕ → Req
normal_rga_set_src_active_info req width height x_off y_off = record req {
  src = record req.src {
    act_w = uint16 width;
    act_h = uint16 height;
    x_offset = uint16 x_off;
    y_offset = uint16 y_off;
  };
}

unfoldable pub normal_rga_set_dst_active_info : Req → ℕ → ℕ → ℕ → ℕ → Req
normal_rga_set_dst_active_info req width height x_off y_off = record req {
  dst = record req.dst {
    act_w = uint16 width;
    act_h = uint16 height;
    x_offset = uint16 x_off;
    y_offset = uint16 y_off;
  };
}

unfoldable pub normal_rga_set_pat_active_info : Req → ℕ → ℕ → ℕ → ℕ → Req
normal_rga_set_pat_active_info req width height x_off y_off = record req {
  pat = record req.pat {
    act_w = uint16 width;
    act_h = uint16 height;
    x_offset = uint16 x_off;
    y_offset = uint16 y_off;
  };
}

unfoldable pub normal_rga_set_fds_offsets : Req → ℕ → ℕ → ℕ → ℕ → Req
normal_rga_set_fds_offsets req src_fd dst_fd src_offset dst_offset = record req {
  line_draw_info = record req.line_draw_info {
    color = bit_or (uint16 src_fd) (uint32 (uint16 dst_fd * 2 ^ 16));
    flag = uint32 src_offset;
    line_width = uint32 dst_offset;
  };
}

-- The addresses are uintptr_t, and the other numbers unsigned ints.
unfoldable pub normal_rga_set_src_virtual_info : Req → ℕ → ℕ → ℕ → ℕ → ℕ → ℕ → ℕ → Req
normal_rga_set_src_virtual_info req yrgb_addr uv_addr v_addr vir_w vir_h format a_swap_en =
    record req {
      src = record req.src {
        yrgb_addr = uint64 yrgb_addr;
        uv_addr = uint64 uv_addr;
        v_addr = uint64 v_addr;
        vir_w = uint16 vir_w;
        vir_h = uint16 vir_h;
        format = uint32 format / 2 ^ 8;
        alpha_swap = bit_or req.src.alpha_swap (a_swap_en % 2);
      };
    }

abbrev clip_of : Clip → Clip
clip_of clip = record {
  xmin = uint16 clip.xmin;
  xmax = uint16 clip.xmax;
  ymin = uint16 clip.ymin;
  ymax = uint16 clip.ymax;
}

unfoldable pub normal_rga_set_dst_virtual_info : Req → ℕ → ℕ → ℕ → ℕ → ℕ → Clip → ℕ → ℕ → Req
normal_rga_set_dst_virtual_info req yrgb_addr uv_addr v_addr vir_w vir_h clip format a_swap_en =
    record req {
      dst = record req.dst {
        yrgb_addr = uint64 yrgb_addr;
        uv_addr = uint64 uv_addr;
        v_addr = uint64 v_addr;
        vir_w = uint16 vir_w;
        vir_h = uint16 vir_h;
        format = uint32 format / 2 ^ 8;
        alpha_swap = bit_or req.dst.alpha_swap (a_swap_en % 2);
      };
      clip = clip_of clip;
    }

unfoldable pub normal_rga_set_pat_virtual_info : Req → ℕ → ℕ → ℕ → ℕ → ℕ → Clip → ℕ → ℕ → Req
normal_rga_set_pat_virtual_info req yrgb_addr uv_addr v_addr vir_w vir_h clip format a_swap_en =
    record req {
      pat = record req.pat {
        yrgb_addr = uint64 yrgb_addr;
        uv_addr = uint64 uv_addr;
        v_addr = uint64 v_addr;
        vir_w = uint16 vir_w;
        vir_h = uint16 vir_h;
        format = uint32 format / 2 ^ 8;
        alpha_swap = bit_or req.pat.alpha_swap (a_swap_en % 2);
      };
      clip = clip_of clip;
    }

unfoldable pub normal_rga_set_alpha_en_info : Req → ℕ → ℕ → ℕ → ℕ → ℕ → ℕ → ℕ → Req
normal_rga_set_alpha_en_info req alpha_cal_mode alpha_mode fg_global_alpha bg_global_alpha pd_en
      pd_mode dst_alpha_en =
    record req {
      alpha_rop_flag = uint16 (
          bit_or (bit_or (bit_or req.alpha_rop_flag 1) (pd_en % 2 * 2 ^ 3))
            (alpha_cal_mode % 2 * 2 ^ 4));
      fg_global_alpha = uint8 fg_global_alpha;
      bg_global_alpha = uint8 bg_global_alpha;
      alpha_rop_mode =
          uint8 (bit_or (bit_or req.alpha_rop_mode (alpha_mode % 4)) (dst_alpha_en * 2 ^ 5));
      pd_mode = uint8 pd_mode;
    }

unfoldable normal_rga_set_rop_en_info : Req → ℕ → ℕ → ℕ → ℕ → Req
normal_rga_set_rop_en_info req rop_mode rop_code color_mode solid_color = record req {
  alpha_rop_flag = bit_or req.alpha_rop_flag 3;
  alpha_rop_mode = uint8 (bit_or req.alpha_rop_mode (rop_mode % 4 * 2 ^ 2));
  rop_code = uint16 rop_code;
  color_fill_mode = uint8 color_mode;
  fg_color = uint32 solid_color;
}

unfoldable normal_rga_set_fading_en_info : Req → ℕ → ℕ → ℕ → Req
normal_rga_set_fading_en_info req r g b = record req {
  alpha_rop_flag = bit_or req.alpha_rop_flag (2 ^ 2);
  fading = record req.fading { b = uint8 b; g = uint8 g; r = uint8 r };
}

unfoldable pub normal_rga_set_src_trans_mode_info : Req → ℕ → ℕ → ℕ → ℕ → ℕ → ℕ → ℕ → ℕ → Req
normal_rga_set_src_trans_mode_info req trans_mode a_en b_en g_en r_en color_key_min color_key_max
      zero_mode_en =
    record req {
      src_trans_mode =
          bit_or
            (bit_or (bit_or (bit_or (a_en % 2 * 2 ^ 4) (b_en % 2 * 2 ^ 3)) (g_en % 2 * 2 ^ 2))
              (r_en % 2 * 2))
            (trans_mode % 2);
      color_key_min = uint32 color_key_min;
      color_key_max = uint32 color_key_max;
      alpha_rop_mode = uint8 (bit_or req.alpha_rop_mode (zero_mode_en * 2 ^ 4));
    }
