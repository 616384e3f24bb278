-- ===== src/Lib.antt =====
-- kangle, a web server and reverse proxy in C++. The code is in src/ and include/ of the repository.
--
-- The program's parts and how they interact. A request is judged by the access rules (src/KAccess.cpp,
-- src/KTable.cpp, include/KChain.h), which may send it to a pool of upstream servers
-- (src/KMultiAcserver.cpp). The headers of the answer are read by src/KHttpResponseParser.cpp, which
-- decides whether the answer may be stored and how old it is. Rules may ask for a user, by the digest
-- of src/KHttpDigestAuth.cpp, or for a client's address, in the maps of src/KIpMap.cpp. An upstream
-- server may speak AJP (src/KAjpMessage.cpp). Time tables (src/KTimeMatch.cpp) start periodic work.
-- A big object may be stored in parts (src/KSharedBigObject.cpp).
-- The hosts that a request may name are kept by src/KVirtualHostContainer.cpp; the file that it names
-- is found by src/KFileName.cpp.
-- Stored answers are in the lists of src/KObjectList.cpp; the commands of src/utils.cpp start processes.
--
-- The files and what they model.
--   Prelude: the library names passed on, tests on numbers, lists, texts as lists of bytes, the
--     integers over native numbers, decimal numbers in text (atoi and its inverse).
--   Access: Chain is KChain::match (eval_acls and eval_marks are its two loops), Table is KTable::match
--     (match_vec and match_files are its loops, react and act the tests on a chain's result and the
--     switch on its action), Check is KAccess::check and check_post_map, Action is parseChainAction,
--     buildChainAction and build_action_attribute. The request is a state that acls and marks, which
--     are functions, may change; a chain, a table and a server are numbers.
--   MultiServer: the ring and the vectors of KMultiAcserver, buildVNode, nextActiveNode; Cookie is
--     getCookieStick and the cookie of connect_result; Upstream is getNodeIndex and GetUpstream. The
--     class KSockPoolHelper is not in the repository: the record Helper is its interface; `probe` is
--     the state that a true answer of its is_available leaves.
--   TimeMatch: KTimeMatch, its texts and its check. An `i += step` that overflows an int and a write
--     outside an array are results of their own. localtime_r is a function of the model's user.
--   AjpMessage: KAjpMessage's put functions, end and send, and KAjpMessageParser.
--   DigestAuth: the table of nonces of KHttpDigestAuth with init, verifySession and flushSession;
--     DigestAuth/Header is parse, on the fields of the header.
--   IpMap: addresses and their order, addr_add, addr_sub and build_cidr_addr of src/KIpMap.cpp.
--   HttpResponse: the headers that forbid or allow the storage of an answer, and end_parse of
--     src/KHttpResponseParser.cpp, with get_current_age and force_cache of include/KHttpObject.h;
--     Names is kgl_parse_response_header.
--   ObjectList: the linked list of cached objects, KObjectList::add, remove and dead, in a heap.
--   CommandLine: explode_cmd of src/utils.cpp, which cuts the command line of a process.
--   RwLock: KRWLock of include/KRWLock.h, its threads as places in the code, and interleavings of their
--     accesses to the number. The atomic operations of katom.h, which is not in the repository, are
--     the record Atom.
--   TargetRate: the times of the hits of one target, KTargetNode::hit of include/KTargetRate.h, and the
--     answer of getRate on them; Table is the table of the targets of src/KTargetRate.cpp, its map, its
--     list in the order of use, and the nodes on a heap, with getRate and flush.
--   TextMap: std::map with texts as keys, and sets of pointers, as the table of the targets and
--     PerIpAcl use them.
--   PerIpAcl: the acl of include/KPerIpAcl.h that limits the connections of a client, with the hooks that
--     it hands to the connections; their ends are events beside its requests.
--   ConnectionLimit: KConnectionLimit of src/KConnectionLimit.cpp, in interleavings as RwLock; the
--     atomic operations are the record Counter.
--   BigObject: KSharedBigObject, the stored parts of a big object: the search tree of its blocks;
--     Operations is opening, reading and closing, Writes is write and close_write, Satisfy is
--     can_satisfy, Progress is restore. Runs has the calls of readers and writers one after the other,
--     as the lock makes them; what the files answer is an argument of each call. krbtree.h is not in
--     the repository: the record RbTree is its interface and IsRbTree what the code relies on.
--   FileName: tripDir3 of include/KFileName.h, in its one buffer, and tripDir, concatDir and my_strtok of
--     src/KFileName.cpp, which take the "." and ".." out of the paths of files.
--   HostName: the names of hosts of include/KVirtualHostContainer.h and src/KVirtualHostContainer.cpp,
--     revert_hostname, convert and build_domain_name. kgl_tolower, of a submodule, is an argument.
-- The modules below each of these hold its theorems, and its module Tests holds runs and examples.
--
-- Bounds and fuel. KTable::match is called recursively; match_table takes fuel for that, and 33 is
-- enough because checked_table counts the entered tables up to 32. The loop of setItem takes the end
-- of its range as fuel, and that of check the present time, since their steps are positive.
-- The rounds of explode_cmd, tripDir3, my_strtok, revert_hostname and build_domain_name take the text's
-- length: each takes a byte at least.
-- Unsigned numbers wrap where the code lets them: hit counters and ages at 2 ^ 32, indices of
-- upstream servers at 2 ^ 16, words of addresses at 2 ^ 32. Numbers read by atoi are assumed to fit an
-- int, and times not to be negative.
--
-- Not modelled: pages, dumps and configuration events of these classes, mutexes (each operation
-- runs as a whole, as it does under its mutex), memory that runs out, reference counts, and the parts
-- of the server that move bytes between sockets, files and processes.
pub mod Prelude
pub mod Access
pub mod MultiServer
pub mod TimeMatch
pub mod AjpMessage
pub mod DigestAuth
pub mod IpMap
pub mod HttpResponse
pub mod ObjectList
pub mod CommandLine
pub mod RwLock
pub mod TargetRate
pub mod BigObject
pub mod FileName
pub mod HostName
pub mod PerIpAcl
pub mod ConnectionLimit
pub mod TextMap
