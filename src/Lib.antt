-- ===== src/Lib.antt =====
-- The driver library of the Airspy HF+ receiver, libairspyhf, and its tools. A client opens a device,
-- tunes it, and is called back with blocks of samples. The library sends vendor requests to the
-- device by libusb, and moves sample buffers from libusb's transfers through a queue of eight to the
-- client's thread.
--
-- Parts, files and sources (paths from the root of the repository):
--
-- * Usb (libairspyhf/src/airspyhf_commands.h): the vendor requests. `Host` stands for libusb, pthreads
--   and the compiler's floating point: `respond` answers each call from all calls before it, and
--   `callbacks` says which transfers complete while events are handled. Nothing is assumed of it but
--   what a theorem states.
-- * Stream (libairspyhf/src/airspyhf.c: `airspyhf_libusb_transfer_callback`, `consumer_threadproc`,
--   `transfer_threadproc`): the queue, its two threads and the client's flags. `Stream.System` has the
--   interleavings: a step is one stretch of code under the mutex, or one access of the flags. Buffers
--   are known by their addresses; their contents are not part of the queue.
-- * Discovery (libairspyhf/src/airspyhf.c: `airspyhf_open_device`, `airspyhf_open_device_fd`,
--   `airspyhf_list_devices`, `airspyhf_open_exit`): the search for devices, on a trace of the calls of
--   libusb with their answers. `Bus` stands for libusb. `Discovery.Serial` has `strtoull` in base 16.
-- * Balancer (libairspyhf/src/iqbalancer.c, iqbalancer.h): the IQ balancer. The root has its state, and
--   `create`, `configure` and `set_optimal_point`. Transform: `fft`, with the loops that permute the
--   buffer (`permute`, `next_reversed`), and the tables of `__init_library`. `Transform.Recursive` has the
--   transform as a recursive function, which does not work in place. Correction: `cancel_dc`,
--   `adjust_benchmark` and `adjust_phase_amplitude`. Corr: `compute_corr`. Estimate: `utility` and
--   `estimate_imbalance`. Process: `iq_balancer_process`. Sound: the invariant `IsSound`. Arrays are
--   lists, each access is checked, and an access outside of an array is `none`.
-- * Memory (libairspyhf/src/airspyhf.c, iqbalancer.c): which blocks a device owns. `Store` has the live
--   blocks; `gives` says which calls of `malloc` have memory to give. Transfers: `allocate_transfers` and
--   `free_transfers`. Open: the allocations of `airspyhf_open_init`, the releases of `airspyhf_close`,
--   `iq_balancer_create` and `iq_balancer_destroy`. `Answers` are the answers of the device on which the
--   allocations depend; the requests themselves are in Driver.Boot and Discovery.
-- * Rx (tools/src/airspyhf_rx.c): the receiver tool. The root has its globals and `rx_callback`; a file is
--   the list of its bytes, and `fwrite` says how many bytes it takes. Limit: what is written. Wav: the
--   header, and how `main` writes a WAV file. Numbers: `parse_u64` and `parse_u32`. Digits: `u64toa` and
--   `stringrev`. Options: the command line. Setup: what `main` does with the open device
--   up to its loop. Waiting: the loop, where signals are seen, and the end, as definitions alone.
-- * Tools (tools/src/airspyhf_gpio.c, airspyhf_info.c, airspyhf_calibrate.c): the other tools, as sequences
--   of calls of the API with their answers. `Api` stands for the library, whose functions are in the other
--   parts, and `handles` has the devices that are open after a run.
-- * Driver (libairspyhf/src/airspyhf.c): `Device` is `struct airspyhf_device`; each API function is a
--   function of the same name, less its prefix `airspyhf_`, on a `World`: the device and the calls made
--   so far. `Outcome` tells a normal return, an early return of a status, and a departure from what C
--   defines or a wait without an end (`fault`). Frequency: `airspyhf_set_freq_double`. Samplerate: `airspyhf_set_samplerate`.
--   Commands: the functions that are one request. Text: version, bias tee name and serial number.
--   Flash: calibration and configuration. Receiver: `airspyhf_start` and `airspyhf_stop`,
--   and Receiver.Begin, the system of threads that a start begins.
--   Boot: the tables that `airspyhf_open_init` reads from the device. Samples: `convert_samples`,
--   with `iq_balancer_process` between its two loops, from an array into another; Scaled is its first loop. Settings: the functions that set up the DSP, on
--   the device alone, and sequences of settings and blocks.
--
-- `float` and `double` are abstract types with the operations of `Floats`, so every theorem holds for any
-- rounding; `Fixed` is an instance for the tests. A `uint32_t` is a number with its wrap written out, an
-- `int` that is only compared is an integer, and a conversion of an `int` to `size_t` is `to_size`. Most
-- loops run over a list or over a count that is known before. Three loops of `fft` have no such count:
-- `next_reversed` and `stages` have the length of the buffer as fuel, and `butterflies` has one more; a
-- loop that is out of fuel is `none`, as a fault is, so a theorem that a result is there says that
-- the fuel is enough. In `stop`, a call of `pthread_join` comes back or not as `ends` of `Host` says: a call
-- that does not come back is a `fault`. It stands for its effect on the caller alone: what the threads do
-- until they end is in `Stream.System`. So too in `start`: the threads run from `pthread_create` on, which
-- may be before `start` returns, and the model has the device in which they begin, with no step of theirs.
-- The counters `skipped_buffers` and `no_of_avg` of the balancer and the product of its two integrations
-- are integers without a bound, where the source has an `int`; the sequences of settings in
-- Driver.Settings.Session are kept to those for which an `int` is enough. A null pointer to samples is an
-- array of no elements.
--
-- Not modelled: `malloc` that has no block to give inside of `create` and `configure` of the balancer
-- and in Driver.Boot, which take the contents of the memory instead; the block that
-- `iq_balancer_configure` frees and allocates anew, in Memory; the messages of the tools;
-- airspyhf_lib_version.c, which prints three constants; the Windows parts and the mutex itself; the
-- contents of the buffers while they are in the queue; the constants of the balancer for `__arm__`;
-- tools/getopt, which is third-party code.
pub mod Prelude
pub mod Floats
mod Fixed
pub mod Usb
pub mod Stream
pub mod Balancer
pub mod Memory
pub mod Driver
pub mod Discovery
pub mod Rx
pub mod Tools
