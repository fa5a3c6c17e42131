-- ===== src/Lib.antt =====
-- libsane-rs: Rust bindings of the SANE scanner library. A program initialises the library, lists
-- the devices, opens one, reads and sets its options, reads frames of bytes from it, and decodes
-- the frames into an image. The C library is a parameter: the models are of the code that calls
-- it and that computes on what it hands over.
--
-- The parts and their files:
--
-- Common, the Rust that the code is written in. Common/Tests: Boolean tests. Common/Lists: slices
-- as lists. Common/Effects: how a call ends (`Outcome`: a value, a panic, or undefined behaviour
-- where the condition of an `unsafe` block fails) and Rust's `Result`. Common/Bits: `&` on
-- numbers. Common/Iter: iterators that may panic. Common/Slice: `[..n]`, `[i..j]`,
-- `chunks_exact`. Common/Vec: `Vec<u8>` with its spare capacity of bytes that may not be
-- initialised, `reserve_exact`, `set_len`, and products at a width, which panic or wrap round as
-- the build says (`Env`). Common/Decimal: decimal numbers as they are printed and parsed.
-- Common/Text: literals, texts and the standard streams. Common/Int: integers and words of 32
-- bits. Common/Safe and Common/Returns: reasoning about calls that are free of undefined
-- behaviour, and about what they return.
--
-- Sys and Parameters, the enumerations of libsane-sys that the code matches on and
-- `FrameParameters` of libsane/src/device/scan.rs.
--
-- Decoder, libsane/src/device/scan/frame_decoder.rs. Types holds `FrameDecoder` and its
-- `Builder`; Loops the loops over the spare capacity (`write_channel` among them); Branches the
-- branches of the match in `FrameDecoder::write`; Write its checks and the match. The field
-- `buffer` is a Vec of bytes and spare capacity, the state a data type with the constructors of
-- `FrameDecoderState`, and `write` returns the result and the decoder that it leaves (`Written`).
-- A `u8` is a number that stands in a list of bytes, `u32` and `usize` are numbers whose products
-- are taken at 32 and 64 bits; a frame that is given to a theorem is bounded by the checks of the
-- code or by its 32-bit parameters (`Fits`). The proofs: Rows, Image and Whole (gray and rgb
-- frames), Unpack and Bilevel (black and white frames), Pixels, Bands, Interleave and Assembly
-- (three bands), Safety, Sound, SoundBands, SoundSteps, SoundParts and NoUb (freedom from
-- undefined behaviour), States and Calls (the state machine and sequences of calls), Faults (the
-- offsets of green and blue bands). Tests applies the theorems to small frames.
--
-- Scan, `FrameReader::read_full_frame` of libsane/src/device/scan.rs and `sys_read_uninit` of
-- libsane/src/proxied_sys.rs. Reader holds the definitions, over a function `sane_read` on a
-- state of the C library: asked for a number of bytes it returns those it wrote, or a status. A
-- write behind the end of the buffer is undefined behaviour. FrameReader holds `FrameReader` as
-- one state, Session holds `ScanReader`, `FrameReader::read_frame` and the conversion of the
-- parameters, over the calls of the library as a record of functions. Filling, Delivery and
-- Termination hold the proofs about Reader for any library that writes no more than it is asked
-- for, or that gives a byte or fails; Feeding, Room and Growing those for one that hands out the
-- bytes of a frame as the SANE standard documents (`Feeds`). Samples is such a library, over a
-- list of bytes.
--
-- Strings, libsane/src/string.rs and libsane/src/slice_util.rs. Buffer holds the definitions:
-- `SaneStr` as the bytes before its NUL, `SaneString` as its buffer of bytes that may not be
-- initialised; a pointer into a string is the memory from there to the end of the allocation, and
-- whether `c_char` is signed is an argument. Borrow holds the methods of `SaneStr` and the
-- conversions between the two, Display `Display` and `Debug`, over a writer that may fail.
-- Content, Compare and Order hold the proofs.
--
-- Values, libsane/src/value.rs: Value and Owned hold the definitions, with the constants of the
-- generated bindings as a parameter (`BoolWords`), Words the proofs.
--
-- CLists, libsane/src/list.rs: Iterator holds the iterator as a state, Items the word lists and
-- the lists of strings that the C library hands over, as the memory behind a pointer, and their
-- proofs.
--
-- InitExit, libsane/src/init_exit.rs. Credentials holds `Authorizer` and its writers over buffers
-- of bytes that may not be initialised; Process holds `Sane::init`, the drop of a `Sane` and
-- `authorize_callback` as functions on the statics and a state of the C library; Threads holds
-- the accesses to the statics as steps of threads in any interleaving. The accesses are taken in
-- one order for all threads, and the calls of `sane_init` and `sane_exit` are single steps that
-- return. Fields and Provided hold the proofs about the credentials and the client's handler,
-- Exclusion and Progress those about the steps.
--
-- Enumerate, libsane/src/device/enumerate.rs and `boxed_slice_from_fn` of
-- libsane/src/slice_util.rs. Description holds `DeviceDescription`, four strings in one buffer;
-- Devices the iterator, as the memory from its pointer to the end of the list, and the functions
-- of `Sane` that copy the list. Contents and Copies hold the proofs.
--
-- Errors, libsane/src/error.rs and the implementation of `io::Read` in
-- libsane/src/device/scan.rs: Status holds the definitions over the constants of the generated
-- bindings, Codes the proofs.
--
-- Calls, libsane/src/proxied_sys.rs and `WithSane` of libsane/src/lib.rs. Api holds the functions
-- of libsane as a record of functions on a state of the library, Proxied the wrappers. Access
-- holds `WithSane` with its implementors: a call ends or waits for a lock that its own thread
-- holds (`Attempt`); what other threads do with a lock is left out. Ends speaks of the value of
-- such a call.
--
-- Options, libsane/src/device/options.rs. Descriptor holds what `DeviceOption` makes of the
-- fields of a descriptor, Accessors its methods that read one, Access its `get`, `set` and
-- `set_auto` and the functions of a device that find options. Contract states what libsane
-- documents of `sane_control_option`: it writes only to the memory of the value, and a string
-- that it leaves ends in a NUL. Results, Types, Setting and Constraints hold the proofs.
--
-- Devices, libsane/src/device.rs: Handle holds `RawDeviceHandle` and `DeviceHandle` from
-- `connect_with` to the drop, Scanning a scan from `scan_blocking` to `into_inner`, as the
-- readers of Scan/Session and Scan/Reader over the library, where a call of `read_full_frame`
-- that is not over within its fuel has not returned, Session the calls that a client can make in
-- between. Kept, KeptBySet, KeptByFrame, KeptByScan and Closing hold the proofs, from what
-- libsane documents of handles.
--
-- Fixed, libsane/src/fixed.rs: the bits of a fixed point number and its arithmetic, in Fixed
-- itself, with the proofs in Arithmetic. Bindings, libsane-sys/build.rs: the callbacks that name
-- the items of the generated bindings, over `to_case` of convert_case as a parameter, with the
-- proofs in Names.
--
-- Version, `Version` of libsane/src/lib.rs and libsane-sys/src/lib.rs: Code holds the
-- definitions, a word as its 32 bits, and Text its `Display`; Digits and Numbers hold the proofs.
--
-- Page, libsane/examples/scan_a_page.rs. Prompt holds `prompt` and `ask_for_device`, where the
-- standard input is what its reads give (`Console`); Pam holds `write_pam_image` over a record of
-- functions for the files; Scanning holds `main` from the open device to the file, with the
-- reader of Scan and the decoder of Decoder; Main holds the whole of it from the initialised
-- library to the drop of the device, with the list of Enumerate and the handle of Devices. Choice
-- and Listing hold the proofs about the choice of a device, PamReader and PamFile those about the
-- file, with a reader of the lines that the program writes, and PamFormat with a reader of the
-- format as Netpbm documents it (its lines in any order, with comments; a second line of a number
-- replaces the first), OneFrame and Files those about the scan, WholeRun those about the program.
--
-- The loops of the decoder recur on the bytes of their destination and the strings on their
-- memory. The loops of the reader run on fuel, which counts the calls of `sane_read`; for a frame
-- of known height its size in bytes is enough (Scan/Termination, Scan/Feeding), for one of
-- unknown height one more than its bytes (Scan/Growing). The loop over the frames in the example
-- runs on fuel for each frame and the end of the scan, and the loop that asks for a device on
-- fuel for each line typed. The allocator is a parameter: `Env` holds how many bytes more than
-- asked it grants, and a capacity above `isize::MAX` panics. The width of `usize` is 64 bits.
--
-- Not modelled: the functions of libsane, which is not part of the repository; `fix`, `unfix` and
-- the other conversions to floating point of fixed.rs; the text of errors and the debug output of
-- structures; `main` of the build script, which runs bindgen; the example list_devices, which
-- prints.
pub mod Common
pub mod Sys
pub mod Parameters
pub mod Decoder
pub mod Strings
pub mod Scan
pub mod Values
pub mod CLists
pub mod InitExit
pub mod Enumerate
pub mod Errors
pub mod Calls
pub mod Options
pub mod Version
pub mod Devices
pub mod Page
pub mod Fixed
pub mod Bindings
