-- ===== src/Strerror.antt =====
-- tb-utils.c, lines 478-611: the messages of the error numbers of asm-generic/errno.h.
mod First
mod Tests
use Prim.Native.String.{String}
use threading_from_scratch.Prelude.{ℕ, ◌||◌, ◌==◌, if◌then◌else◌, Option, none, some, List, [], ◌∷◌}

-- The table, row by row as in the source: EDEADLOCK is EDEADLK, and EWOULDBLOCK is EAGAIN.
unfoldable pub errors : List (ℕ × String)
errors =
    (7, "Argument list too long")  -- E2BIG
    ∷ (13, "Permission denied")  -- EACCES
    ∷ (98, "Address already in use")  -- EADDRINUSE
    ∷ (99, "Address not available")  -- EADDRNOTAVAIL
    ∷ (97, "Address family not supported")  -- EAFNOSUPPORT
    ∷ (11, "Resource temporarily unavailable")  -- EAGAIN
    ∷ (114, "Connection already in progress")  -- EALREADY
    ∷ (52, "Invalid exchange")  -- EBADE
    ∷ (9, "Bad file descriptor")  -- EBADF
    ∷ (77, "File descriptor in bad state")  -- EBADFD
    ∷ (74, "Bad message")  -- EBADMSG
    ∷ (53, "Invalid request descriptor")  -- EBADR
    ∷ (56, "Invalid request code")  -- EBADRQC
    ∷ (57, "Invalid slot")  -- EBADSLT
    ∷ (16, "Device or resource busy")  -- EBUSY
    ∷ (125, "Operation canceled")  -- ECANCELED
    ∷ (10, "No child processes")  -- ECHILD
    ∷ (44, "Channel number out of range")  -- ECHRNG
    ∷ (70, "Communication error on send")  -- ECOMM
    ∷ (103, "Connection aborted")  -- ECONNABORTED
    ∷ (111, "Connection refused")  -- ECONNREFUSED
    ∷ (104, "Connection reset")  -- ECONNRESET
    ∷ (35, "Resource deadlock avoided")  -- EDEADLK
    ∷ (35, "Synonym for EDEADLK")  -- EDEADLOCK
    ∷ (89, "Destination address required")  -- EDESTADDRREQ
    ∷ (33, "Mathematics argument out of domain of function")  -- EDOM
    ∷ (122, "Disk quota exceeded")  -- EDQUOT
    ∷ (17, "File exists")  -- EEXIST
    ∷ (14, "Bad address")  -- EFAULT
    ∷ (27, "File too large")  -- EFBIG
    ∷ (112, "Host is down")  -- EHOSTDOWN
    ∷ (113, "Host is unreachable")  -- EHOSTUNREACH
    ∷ (43, "Identifier removed")  -- EIDRM
    ∷ (84, "Illegal byte sequence")  -- EILSEQ
    ∷ (115, "Operation in progress")  -- EINPROGRESS
    ∷ (4, "Interrupted function call")  -- EINTR
    ∷ (22, "Invalid argument")  -- EINVAL
    ∷ (5, "Input/output error")  -- EIO
    ∷ (106, "Socket is connected")  -- EISCONN
    ∷ (21, "Is a directory")  -- EISDIR
    ∷ (120, "Is a named type file")  -- EISNAM
    ∷ (127, "Key has expired")  -- EKEYEXPIRED
    ∷ (129, "Key was rejected by service")  -- EKEYREJECTED
    ∷ (128, "Key has been revoked")  -- EKEYREVOKED
    ∷ (51, "Level 2 halted")  -- EL2HLT
    ∷ (45, "Level 2 not synchronized")  -- EL2NSYNC
    ∷ (46, "Level 3 halted")  -- EL3HLT
    ∷ (47, "Level 3 halted")  -- EL3RST
    ∷ (79, "Cannot access a needed shared library")  -- ELIBACC
    ∷ (80, "Accessing a corrupted shared library")  -- ELIBBAD
    ∷ (82, "Attempting to link in too many shared libraries")  -- ELIBMAX
    ∷ (81, "lib section in a.out corrupted")  -- ELIBSCN
    ∷ (83, "Cannot exec a shared library directly")  -- ELIBEXEC
    ∷ (40, "Too many levels of symbolic links")  -- ELOOP
    ∷ (124, "Wrong medium type")  -- EMEDIUMTYPE
    ∷ (24, "Too many open files")  -- EMFILE
    ∷ (31, "Too many links")  -- EMLINK
    ∷ (90, "Message too long")  -- EMSGSIZE
    ∷ (72, "Multihop attempted")  -- EMULTIHOP
    ∷ (36, "Filename too long")  -- ENAMETOOLONG
    ∷ (100, "Network is down")  -- ENETDOWN
    ∷ (102, "Connection aborted by network")  -- ENETRESET
    ∷ (101, "Network unreachable")  -- ENETUNREACH
    ∷ (23, "Too many open files in system")  -- ENFILE
    ∷ (105, "No buffer space available")  -- ENOBUFS
    ∷ (61, "No message is available on the STREAM head read queue")  -- ENODATA
    ∷ (19, "No such device")  -- ENODEV
    ∷ (2, "No such file or directory")  -- ENOENT
    ∷ (8, "Exec format error")  -- ENOEXEC
    ∷ (126, "Required key not available")  -- ENOKEY
    ∷ (37, "No locks available")  -- ENOLCK
    ∷ (67, "Link has been severed")  -- ENOLINK
    ∷ (123, "No medium found")  -- ENOMEDIUM
    ∷ (12, "Not enough space")  -- ENOMEM
    ∷ (42, "No message of the desired type")  -- ENOMSG
    ∷ (64, "Machine is not on the network")  -- ENONET
    ∷ (65, "Package not installed")  -- ENOPKG
    ∷ (92, "Protocol not available")  -- ENOPROTOOPT
    ∷ (28, "No space left on device")  -- ENOSPC
    ∷ (63, "No STREAM resources")  -- ENOSR
    ∷ (60, "Not a STREAM")  -- ENOSTR
    ∷ (38, "Function not implemented")  -- ENOSYS
    ∷ (15, "Block device required")  -- ENOTBLK
    ∷ (107, "The socket is not connected")  -- ENOTCONN
    ∷ (20, "Not a directory")  -- ENOTDIR
    ∷ (39, "Directory not empty")  -- ENOTEMPTY
    ∷ (88, "Not a socket")  -- ENOTSOCK
    ∷ (25, "Inappropriate I/O control operation")  -- ENOTTY
    ∷ (76, "Name not unique on network")  -- ENOTUNIQ
    ∷ (6, "No such device or address")  -- ENXIO
    ∷ (95, "Operation not supported on socket")  -- EOPNOTSUPP
    ∷ (75, "Value too large to be stored in data type")  -- EOVERFLOW
    ∷ (1, "Operation not permitted")  -- EPERM
    ∷ (96, "Protocol family not supported")  -- EPFNOSUPPORT
    ∷ (32, "Broken pipe")  -- EPIPE
    ∷ (71, "Protocol error")  -- EPROTO
    ∷ (93, "Protocol not supported")  -- EPROTONOSUPPORT
    ∷ (91, "Protocol wrong type for socket")  -- EPROTOTYPE
    ∷ (34, "Result too large")  -- ERANGE
    ∷ (78, "Remote address changed")  -- EREMCHG
    ∷ (66, "Object is remote")  -- EREMOTE
    ∷ (121, "Remote I/O error")  -- EREMOTEIO
    ∷ (85, "Interrupted system call should be restarted")  -- ERESTART
    ∷ (30, "Read-only filesystem")  -- EROFS
    ∷ (108, "Cannot send after transport endpoint shutdown")  -- ESHUTDOWN
    ∷ (29, "Invalid seek")  -- ESPIPE
    ∷ (94, "Socket type not supported")  -- ESOCKTNOSUPPORT
    ∷ (3, "No such process")  -- ESRCH
    ∷ (116, "Stale file handle")  -- ESTALE
    ∷ (86, "Streams pipe error")  -- ESTRPIPE
    ∷ (62, "Timer expired")  -- ETIME
    ∷ (110, "Connection timed out")  -- ETIMEDOUT
    ∷ (26, "Text file busy")  -- ETXTBSY
    ∷ (117, "Structure needs cleaning")  -- EUCLEAN
    ∷ (49, "Protocol driver not attached")  -- EUNATCH
    ∷ (87, "Too many users")  -- EUSERS
    ∷ (11, "Operation would block")  -- EWOULDBLOCK
    ∷ (18, "Improper link")  -- EXDEV
    ∷ (54, "Exchange full")  -- EXFULL
    ∷ (0, "Unknown")  -- 0
    ∷ []

-- The loop and the message of the row that it stops at; none if there is no such row.
unfoldable pub find_row : (errno : ℕ) → List (ℕ × String) → Option String
find_row errno [] = none
find_row errno ((n, msg) ∷ rows) = if n == 0 || n == errno then some msg else find_row errno rows

unfoldable pub tbstrerror : (errno : ℕ) → Option String
unfolding errors find_row
tbstrerror errno = find_row errno errors
