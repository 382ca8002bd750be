-- ===== src/Lib.antt =====
-- The student management system: a server that keeps users, groups and files in a small file
-- system of its own, and clients that send it commands.
--
-- The program's parts, and the files that model them:
--   - OS/FileSnapshot.cpp, OS/FileSnapshot.h: the stack of saved blocks and i-nodes, with the three
--     pointers nowPointer, maxPointer and topPointer, and its file. Snapshot.antt has the structures
--     and init, pushcc, pop, revokePop, writeToFile and readFromFile.
--   - OS/Log.cpp: the commands done so far, and their file. Log.antt has init, push, pop,
--     writeToFile, readFromFile and checkLog.
--   - OS/OperatingSystem.cpp, OS/OperatingSystem.h: the class OperatingSystem. System.antt has its
--     state (the arrays inodeMem, blockMem and blockBitmap as an Image, the snapshot, the log, and
--     the files on disk) and writeSystem. Journal.antt has pushBlockAndInode, pushTag, revoke,
--     recover and initializeSnapshot: each call that changes the arrays saves first what it will
--     change, pushTag closes a command, and revoke goes back to the tag before. Memory.antt has
--     memory as bytes, the calls of <string.h> on it and printf formats, Layout.antt the packed
--     structures of the blocks of users, groups and passwords, Loop.antt the search loops with a break. User.antt has
--     loginSystems, createUser, deleteUser and the calls that read or change a user, Group.antt those
--     on groups and their members. Permission.antt has the tests checkReadPermission,
--     checkWritePermission and checkExecutePermission, Path.antt the walk along a path
--     (getReadInodeID, getWriteInodeID), getOwner, getGroup and checkPath, File.antt findBlock,
--     findInode and createFile, File/Make.antt createDirectory, File/Remove.antt
--     deleteAllFileInDirectory, deleteDirectory and deleteFile, File/Content.antt readFile, listFiles
--     and both writeFile, File/Owner.antt modifyPermission, modifyOwner and modifyGroup. Backup.antt
--     has the constructor and the destructor, backupSystem and recoverySystem. Listing.antt has what
--     listuser, listgroup, listBlock and printSnapshot print, which nobody calls.
--   - Server/server.cpp: Server/Lock.antt has downReader, upReader, downWriter and upWriter, which
--     the handlers call around their work on the shared OperatingSystem, as steps of threads that
--     any schedule may interleave, and Server/Score.antt isScoreValid. Server/Session.antt has what
--     one thread sees: the system, the lock it holds, the messages that the client has sent and those
--     sent to the client; the steps of the handlers are actions on this state, in do blocks.
--     Server/Homework.antt, Server/Grading.antt, Server/Course.antt and Server/Account.antt have the
--     handlers of the 24 commands, Server/Work.antt login, the dispatch of systemWorking and working.
--     What a write to a plain file leaves as it was, for paths and permissions, is in
--     Permission/Frame.antt, Path/Frame.antt and File/Content/Kept.antt, and what follows for handlers
--     that write and then read a submission in Server/Homework/Stored.antt,
--     Server/Homework/Submitted.antt, Server/Grading/Marked.antt and Server/Grading/Commented.antt.
--   - Client/client.cpp: Client.antt has what the client reads (the words typed, the messages of the
--     server) and sends, and sendFile; Client/Command.antt the commands, Client/Work.antt the loops
--     of the three kinds of user, login, working and main. Client/Lockstep.antt sets the client's
--     loops against the server's.
--   - TcpSocket/TcpSocket.cpp, TcpSocket/TcpServer.cpp: Socket.antt has sendMsg, recvMsg, readn and
--     writen over a stream. What the calls read and write of the operating system take each time is a
--     list, a parameter. Socket/Connection.antt has the constructors and destructors, connectToHost,
--     setListen and acceptConn over a Kernel, the calls of the operating system, a parameter too.
--     Server/Connections.antt has main of the server on top of them: the turns of its loop and the
--     ends of threads, in any order.
-- Prelude.antt has what all files share. The files below a component's file prove the laws of the
-- component; Tests and its children run the definitions.
--
-- Conventions. An int or short is the 32-bit pattern of its value, as a natural number: -1 is
-- 0xffffffff, and "is negative" is at least 2^31. Block memory is one function from addresses to
-- bytes, so that a structure that is larger than its block overlaps the next one as it does in C++.
-- A bit of blockBitmap is a truth value, and inodeMem a function of the index. A call that overruns
-- a local buffer, follows a null pointer or does not return has the value none. What a local
-- structure holds before it is written is a parameter (junk). Console output is left out
-- but for Listing.antt and for readFile, which prints the text of a file as a printf format: a text
-- with a '%' that is not followed by another asks for an argument that is not there, and has the
-- value none.
--
-- Loops and fuel. Loops over slots are structural recursion on their number. The loops of revoke and
-- recover run on fuel, which is nowPointer, or maxPointer less nowPointer: each round but the last
-- moves nowPointer by one towards the bottom, or the top, of the stack, and at the bottom lies a
-- tag. string(p) reads at most 2^21 bytes, which is all of the memory (1024 blocks of 2048 bytes).
-- deleteAllFileInDirectory runs on fuel, the depth of directories in directories, which the callers
-- pass (the field depth of Env): a directory that holds itself has no end in the source either, and
-- both that and too little fuel are none. The loops of systemWorking and of login take a message a
-- turn, so that as many turns as there are messages are enough; those of the client take a turn for
-- each command typed.
--
-- Threads and messages. A handler is one thread's view: while it holds the lock nobody else changes
-- the system (Server/Lock.antt), so that it acts on the system as if it were alone. Messages are
-- lists of texts; a recvMsg with no message left does not return. What the C++ leaves unset is a
-- parameter of the handlers (Env).
--
-- Not modelled: other console output (printLog, printBinary, the prompts of the client), and the
-- constructor of OperatingSystem that copies three arrays, which nobody calls. That several threads
-- greet their clients, where systemWorking reads without a lock, is shown as a misuse and not played
-- through.
pub mod Prelude
pub mod Snapshot
pub mod Log
pub mod System
pub mod Journal
pub mod Loop
pub mod Memory
pub mod Layout
pub mod User
pub mod Group
pub mod Permission
pub mod Path
pub mod File
pub mod Backup
pub mod Listing
pub mod Socket
pub mod Server
pub mod Client
mod Tests
