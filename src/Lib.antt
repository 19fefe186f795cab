-- ===== src/Lib.antt =====
-- Verification library of libGRVY, a C++ library for scientific codes. Its parts share little
-- state: each is a class or a file of functions. All of them write to the log, and the timers save
-- their times through the HDF5 class.
--
-- * Ocore models the MPI ramdisk of src/grvy_ramdisk.cpp. Worker tasks write and read records by
--   index; Ocore tasks keep them in a pool of fixed size, and move the records read least to an
--   overflow file when it is full. Ocore/Types has the state of a task (the members of
--   GRVY_MPI_Ocore_ClassImp that it uses), Ocore/Node its functions (StoreData, PullData,
--   DumptoDisk, GetFreeRecord), Ocore/Poll the loop PollForWork with the message header,
--   Ocore/Client the calls of a worker (Write, Read, NumActive, AssignOwnership), and
--   Ocore/System both sides together, with PopRecord in System/Pops and programs that write and
--   pop in System/Drain. Ocore/Invariant states what a task keeps, Ocore/Views what is stored,
--   and Ocore/Refinement compares a task with one map of records. Ocore/Settings and Ocore/Job
--   are Initialize: what the master task reads from the input file and the other tasks receive,
--   and the roles of the tasks. Ocore/Options has which option comes from where, Ocore/Ready when
--   a job is set up and what its tasks can rely on. Ocore/Finalize is Finalize with
--   DumpStatistics, Finalize/Left the end of the loops, Finalize/Dumped what the statistics
--   contain.
-- * Timer models the timers of src/grvy_timer.cpp: Timer/Types and Timer/Data the state and what
--   is stored, Timer/Calls BeginTimer, EndTimer, Reset, Init and Finalize with the stack of
--   active timers, Timer/Queries the times and statistics. Timer/Regions has programs of nested
--   regions and the times that they should get; Timer/Steps, Timer/Around, Timer/Nesting and
--   Timer/Times follow a run of them, Timer/Session a whole program, Timer/Misuse the calls that
--   do not pair up, and Timer/Keys what every operation keeps of the names in the map
--   (Keys/Calls). Timer/Summary has what Summarize lists, its order (Summary/Order), its sums
--   (Summary/Kept) and the widths of its columns (Summary/Width). Timer/Options has the runtime
--   options (SetOption).
-- * Hdf5 models src/grvy_hdf5.cpp: Hdf5/Types the state of GRVY_HDF5_Class, Hdf5/Files Create,
--   Open, Exists and Close, Hdf5/Objects the groups, data sets and packet tables, Hdf5/Attributes
--   the attributes, all over the calls of the HDF5 library in Hdf5/Library. Hdf5/Handler follows
--   the library's error handler, Hdf5/Held and Hdf5/Released the objects that are open,
--   Hdf5/Stale the identifiers that name nothing, and Hdf5/Values, Hdf5/RoundTrip and
--   Hdf5/Overwrite the values of attributes. Hdf5/Simulation is a small library to run the calls
--   on.
-- * History models the historical timings of src/grvy_timer.cpp, which a program saves with the
--   timers' times through GRVY_HDF5_Class: History/Packets what AppendHistData puts together,
--   History/Tables the table of a host (the end of AppendHistData, and ReadAllHostData), and
--   History/Save the whole of SaveHistTiming, History/Entries the four functions that call it,
--   and History/Leaves what it leaves behind. Tables/Contents states what a table has,
--   Tables/Frames what calls on attributes leave alone. History/Statistics has what
--   SummarizeHistTiming computes for a host: the statistics, minima, maxima and columns.
-- * Gadd models the command-line tool src/gadd.cpp, which saves a timing by SaveHistTiming:
--   Gadd/Arguments the parsing of its options, Gadd/Parsing which words it takes for the required
--   ones. Gdump is the command line of src/gdump.cpp, on top of the same.
-- * Interface has the functions for C and Fortran, each over one object that they share:
--   Interface/Parser and Interface/Fortran those of src/grvy_input_interface.cpp,
--   Interface/Timers those of src/grvy_timer_interface.cpp, and Interface/Pool those of
--   src/grvy_ramdisk_interface.cpp. Interface/Calls compares sequences of calls with the methods,
--   Fortran/Strings has what becomes of texts, Timers/Programs whole C programs, and Timers/Saved
--   the functions that save their timings, with Timers/Keys for the map of timers that they
--   leave.
-- * Input models GRVY_Input_Class of src/grvy_input.cpp: Input/Types its state and what it uses
--   of GetPot, Input/Calls Open, Load, Close and the registry of defaults, Input/Reads the reads
--   of scalars and vectors, Input/Dump the dumps. Input/Precedence has which value a read takes,
--   Input/Vectors the reads of vectors, Input/Lifecycle sequences of calls.
-- * Utils models src/grvy_utils.cpp: Utils/Paths the check and creation of parent directories
--   (grvy_check_file_path), Utils/Scratch the scratch directories and their templates, and
--   Utils/Removal the exit handler and _GRVY_RemoveAll. Utils/FileSystem has the system calls.
--   Utils/Copy is grvy_copy_dir.
-- * Log models GRVY_Log_Class of src/grvy_classes.cpp and src/grvy_classes.h, and grvy_printf of
--   src/grvy_log.cpp.
-- * Host has the domain name of src/grvy_env.cpp, the version number of src/grvy_classes.cpp and
--   the digits of src/grvy_int.h.
-- * Base has what the others share: tests on numbers, lists, results with the way in which code
--   can stop (Base/Results), std::map as an ordered list (Base/Map), integers and byte strings.
--
-- Conventions. A function that can stop by MPI_Abort, a failed assertion or an access that C++
-- leaves undefined returns a Result, and names the Fault. Objects are records that are passed on.
-- Sizes and indices are unbounded numbers, but the record index that Write and Read send as an int
-- is cut to 32 bits and extended by its sign, and num_begins is compared with a size_t as C++
-- does. The sizes in Summarize and the number of measurements of a table are taken to fit an int,
-- and differences of sizes are cut to 64 bits. The size of a block in bytes is taken to fit an
-- int, and the reads and writes of the overflow file are taken to succeed. The watermark ratio is
-- a fraction. Loops recur on their lists or counters. Only the loop of numDigits_positive has
-- fuel, which is the number itself: each round divides it by ten.
--
-- Parameters. MPI delivers the messages of one sender in order, which makes a run a sequence of
-- handled messages. The clock of the timers is a sequence of whole microseconds, and the boost
-- accumulators are a record of operations. The memory of a string that is gone holds whatever a
-- parameter says (History/Types). GetPot's call operators and the HDF5 library are such records
-- too (Input/Types, Hdf5/Library, History/Types); what is documented of them is in separate
-- records (Hdf5/Held, Hdf5/Values, Tables/Contents). The system calls of Utils are records of
-- operations with what is documented of them; dirname is an argument, and so are boost's trim and
-- what a task of a job finds on its machine (Ocore/Job). The text that vprintf writes is an
-- argument of the log.
--
-- Not modelled: Summarize of MPI Ocore, communicators and barriers, performance timers and log
-- messages within other parts, the rounding of doubles, the layout of reports (also of
-- SummarizeHistTiming), the tools that print the version and the host, the C function that calls
-- SummarizeHistTiming, grvy_asci_time_fortran, and grvy.f90, which declares the C functions.
-- GetPot is another project's library.
pub mod Base
pub mod Ocore
pub mod Timer
pub mod Utils
pub mod Log
pub mod Host
pub mod Input
pub mod Hdf5
pub mod History
pub mod Gadd
pub mod Interface
pub mod Gdump
