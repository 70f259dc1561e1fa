-- ===== src/Lib.antt =====
-- The forwarding daemon of vndn, named data networking for vehicles.
--
-- The daemon receives interests, which ask for content by name, NACKs and content objects on its
-- faces. The forwarder looks an interest up in the pending interest table (PIT), asks the content
-- store, and sends it on along the forwarding information base (FIB) by a strategy; content goes back
-- on the faces that the interest came from.
--
-- What is modelled:
-- - Name and its children: NameComponents (network/ndn-name-components.{h,cc}) as a list of
--   components, each a list of bytes; operator== is name_eq, operator< name_lt, Print print, the
--   constructor from a string parse; NDNPrefixHash (daemon/hash-helper.h) is prefix_hash.
--   Name.Prefix has the loop of LongestPrefixMatch, which FIB and PIT share, over any table.
-- - Fib and its children: NDNFibFaceMetric, NDNFibEntry and NDNFib (daemon/ndn-fib.{h,cc}). The
--   methods keep their names: UpdateStatus is update_status, Add is add, and so on.
-- - Header: the fields of the two packet headers (network/ndn-interest-header.{h,cc},
--   network/ndn-content-object-header.{h,cc}).
-- - Pit and its children: the entries, their face containers, and the table (daemon/pit/*). The two
--   Lookup methods are lookup_interest and lookup_content, CleanExpired is clean_expired.
-- - L3.Strategy: NDNForwardingStrategy::PropagateInterestViaGreen and NDNFloodingStrategy, the
--   strategy that daemon/ndnd.cc installs.
-- - L3.Protocol and L3.Faces: NDNL3Protocol (daemon/ndn-l3-protocol.{h,cc}): OnInterest is
--   on_interest, OnNack on_nack, OnData on_data, RemoveFace remove_face, Reap reap; and
--   prefixRegistration of daemon/ndn-management.cc is register and unregister.
-- - Trie and its children: the trie of utils/trie.h, a node named by the path of keys to it.
--   TrieWithPolicy: utils/trie-with-policy.h with the policy of utils/lru-policy.h. ContentStore:
--   Lookup, Add and Print of daemon/cs/content-store-impl.h are lookup, add and print. L3.Caching puts
--   this store into the forwarder.
-- - PacketStorage: network/mac/packet-storage.{h,cc}; a method that answers 1 or -1 answers a Boolean.
--   LlNomPolicy: network/mac/ll-nom-policy.cc, the policy of the ad hoc link layer, with the
--   acknowledgements of network/mac/lal-ack-manager-by-distance.cc and the packet types of
--   helper/ndn-header-helper.cc. The methods keep their names.
-- - L3.Run: the events as an explicit sequence, from the state of the constructor on.
-- - Encoding: the encoder (helper/ndn-encoding-helper.cc): each Append function gives the bytes that
--   it appends to the buffer and the count that it returns; the Estimate functions and GetSize keep
--   their names. parse_block_header is the head of Block::ParseBlock
--   (helper/ccnb-parser/syntax-tree/ccnb-parser-block.cc).
-- - CcnbParser: the syntax tree (helper/ccnb-parser/syntax-tree): parse_block is Block::ParseBlock, and
--   parse_blob, parse_dtag and so on are the constructors of its classes. CcnbParser.Visitors: the
--   visitors of helper/ccnb-parser/visitors for strings, names and content objects, and Deserialize of
--   helper/ndn-decoding-helper.cc for a content object.
--
-- How the state corresponds to the code:
-- - A face is a number that stands for its pointer, and for its descriptor in GetFace. A time is a
--   number of microseconds; a handler reads the clock once, as its argument.
-- - A Boost multi-index container is the list of its elements in the order of one of its indices. An
--   ordered index leaves open where an element goes among equivalent ones, so the places are a
--   parameter (Base.Sorted.OrderedIndex), with the documented order as its laws.
-- - The pointer m_fibEntry of a PIT entry is the prefix of the FIB entry. Following it when that entry
--   was erased has no defined behaviour; a handler ends in a state, or raises an exception, or is
--   undefined (Base.Outcome).
-- - The forwarder's parameters (L3.Env) are the content store behind its abstract class, with a
--   predicate that its operations keep, and IsBelowLimit of the faces, a virtual method over
--   floating-point numbers, of which no law is assumed. A lookup in the store ends in a state, or is
--   undefined, which it may be for the root's name only; the daemon's content store fills all of this
--   in L3.Caching.
-- - The sources of an interest over IP (network/request-source-ip-info.{h,cc}) are a list with the
--   newest in front; addIP is add_ip. OnInterest frees the metadata of such a packet, and the packet
--   goes on as a released frame. What a face's Send then does with it is not modelled; that OnData
--   frees the metadata of the data packet is not followed.
-- - The children of a trie's node are an unordered set: a list, on whose order no lemma depends.
-- - The link layer's parameters (LlNomPolicy.NomEnv) are the parser of packet headers, which gives a
--   header or the exception that is caught, or throws another one, or is undefined; positions and
--   their distances, which are floating-point numbers; and the socket to the daemon. A clock reading
--   and the value of rand are arguments.
-- - uint32_t counters wrap around at 2 ^ 32, size_t is 64 bits, and a char of the hash is signed.
-- - Loops are by recursion on the list that they walk or on the number of components left. The
--   encoder's loops have a number of rounds: 10 for a block header, since 64 bits less 4 are at most
--   9 groups of 7 bits, 10 for a decimal uint32_t, and the 5 of the code's own bound for a timestamp.
--   The parser has one unit of fuel more than there are bytes, since each block takes a byte at least;
--   it bounds the depth of the tree and the rounds of each loop.
--
-- What is not modelled: logging, sockets, threads and the timer's registration, what a face reads of
-- the metadata of a packet that it sends, the parser's visitors of interests, integers, nonces and
-- timestamps, the devices and statistics of the MAC layers, the applications and the geographic
-- utilities.
pub mod Base
pub mod CcnbParser
pub mod ContentStore
pub mod Encoding
pub mod Fib
pub mod Header
pub mod L3
pub mod LlNomPolicy
pub mod Name
pub mod PacketStorage
pub mod Pit
pub mod Tests
pub mod Trie
pub mod TrieWithPolicy
