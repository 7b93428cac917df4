-- ===== src/Lib.antt =====
-- librga, the user-space driver of Rockchip's 2D raster graphic accelerator (RGA): a model of the
-- parts that decide what the accelerator is asked to do.
--
-- An application describes images and an operation through im2d_api. The library opens one session
-- with the kernel driver, checks that the versions of the library, the headers and the driver fit
-- together, checks the operation, and hands the driver a request, alone or as part of a job.
--
--   Base      numbers, lists, C integers, machine words and flag words that the other modules share
--   Status    IM_STATUS and the sequencing of checks (im2d_api/im2d_type.h)
--   Version   versions and the binding tables (im2d_api/src/im2d_impl.cpp, im2d_hardware.h)
--   Format    pixel formats, their classes, sizes and conversion (include/rga.h,
--             core/utils, core/RgaUtils.cpp)
--   Hardware  the capabilities of the cores and the table of a system (im2d_api/src/im2d_hardware.h,
--             rga_get_info and rga_support_info_merge_table of im2d_impl.cpp)
--   Check     images, rectangles and the checks of an operation (rga_check* of im2d_impl.cpp)
--   Session   the session with the driver (im2d_api/src/im2d_context.cpp)
--   Csc       the modes of a colour space conversion (rga_get_csc_mode of im2d_impl.cpp)
--   Request   the driver's request: struct rga_req (core/hardware/rga_ioctl.h), the setters of
--             core/NormalRgaApi.cpp, and generate_blit_req, generate_fill_req and
--             generate_color_palette_req of im2d_impl.cpp
--   Task      rga_task_submit: checks, modes, request, then the job or ioctl (im2d_impl.cpp)
--   Job       the job manager (im2d_api/src/im2d_job.cpp, rga_job_* of im2d_impl.cpp), and in
--             Job.Linked the linked list that stands for std::map in a C build
--
-- A definition has the name of the function that it models, without the prefix rga_job_ in Job. The
-- constants of the C headers are constructors or definitions in lower case. A status that a C
-- function returns is a value of Status.
--
-- The driver is not part of the repository: what ioctl answers is an argument, as are the memory
-- that malloc gives and what get_rga_session gave where a function starts with it. std::map is known
-- by the laws of JobMap; an association list shows that they can be met. In Job.Linked malloc's
-- addresses come with the calls. What the calls of ioctl for a task return, with errno,
-- is a list, of which the loop around ioctl reads as many as it needs. sscanf, which reads the
-- text of an old driver's version, is an argument of the session. The comparison of a quotient of
-- floats with a whole number is an argument of the checks; what the check of the scale needs of it
-- is ExactQuotients, which IEEE 754 gives for sizes up to 8192. The build's macro LINUX is an
-- argument of the format conversion. In Request a quotient of floats and its comparisons with whole
-- numbers are the arguments `quotient`, `below`, `above` and `equal`, the rounding of a coefficient is
-- `to_fixed`, and `loads` says whether the ioctl that loads a palette succeeds.
--
-- A format code is the bit pattern of a 32-bit int, and so is every word of flags. A sum or a product
-- of ints keeps its wrap-around; the theorems that need sums in the range of int ask for it (InRange,
-- Ints). Loops over tables, versions and the answers of ioctl are structural recursion. The
-- loops over the linked list have fuel, one round more than the list has nodes: a theorem shows that
-- the loop that empties the list ends. Pointers and unsigned long have 64 bits.
--
-- Not modelled: log messages and the switch of the logs; the locks, whose critical sections are single
-- steps (other threads run between the locked section and the ioctl of rga_job_config); the values of
-- the coefficients of a Gaussian blur, which are floats; the import and the release of buffers; the
-- calls of im2d_api/src/im2d.cpp that collect the arguments; the older interface (core/NormalRga.cpp)
-- and some setters that only it calls; the Android allocator, the RT-Thread adapter, the samples and
-- the headers of other projects.
pub mod Base
pub mod Status
pub mod Version
pub mod Check
pub mod Hardware
pub mod Job
pub mod Session
pub mod Request
pub mod Task
pub mod Csc
pub mod Format
