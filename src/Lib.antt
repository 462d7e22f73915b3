-- ===== src/Lib.antt =====
-- Models of the logic of Christian's Steam Framework, a C++ library of Steam bots, with the theorems
-- that make it correct. A client reads packets off a TCP stream, unpacks messages from them, and hands
-- them to its modules, which keep lists of licenses, packages and games, publish them on a whiteboard,
-- choose games to farm and keep them playing, fetch pages with cookies, and queue web requests.
--
-- Files and what they model (paths from the repository's root; class and function names in the code
-- are spelled in snake_case here, and a method takes its object's state and returns the new one):
--   Base and Base/: library names, Boolean tests, lists over native numbers, byte strings,
--     little-endian integers, and `Outcome`: a value, an exception, a failed assertion, or fuel that
--     ran out.
--   KeyValue, KeyValue/Laws: Headers/Steam/KeyValue.hpp, Sources/Steam/KeyValue.cpp. Binary and its
--     children: Sources/Steam/KeyValue_Serialize.cpp and KeyValue_Deserialize.cpp. Text and its
--     children: Sources/Steam/KeyValue_Deserialize_Text.cpp.
--   Wire: Headers/Connection/Serialize.hpp, Sources/Connection/Serialize.cpp.
--   Message: Headers/Connection/Message.hpp, Sources/Connection/Message.cpp; it uses Wire.
--   Tcp: Sources/Connection/TCP.cpp; it uses Wire.
--   Ciphers: Sources/OpenSSL/AESBase.cpp, AES.cpp, AESHMAC.cpp, RSA.cpp and XCrypt.hpp.
--   Encrypted and its children: Sources/Connection/Encrypted.cpp, Headers/Connection/Encrypted.hpp; it
--     uses Message and Ciphers.
--   MultiPacket: Sources/Modules/MultiPacket.cpp, and handlePacket of Sources/Modules/Connection.cpp; it
--     uses Wire and Message.
--   AssetKey and its child: Headers/Helpers/ParseNumber.hpp, Sources/AssetKey.cpp.
--   BitField, BitField/SteamId, BitField/GlobalId: Headers/BitField.hpp, Headers/SteamID.hpp,
--     Headers/GlobalID.hpp, Sources/JobID.cpp.
--   Vector: Headers/Vector.hpp, the unordered erase that PlayGames and Messageboard use.
--   PlayGames: Sources/Modules/PlayGames.cpp; Games is about what Steam was told, Schedule about when.
--   StringCompare: Sources/Helpers/StringCompare.cpp.
--   CookieJar: Sources/Web/CookieJar.cpp, Sources/Web/Cookies.cpp; Store is about the jar as a map,
--     Domain about which cookies are sent, Updates about set-cookie headers.
--   Html: Sources/Helpers/HTML.cpp, checkClass and getCleanText.
--   HexString: Sources/Helpers/HexString.cpp, Sources/Helpers/FromHexString.cpp.
--   RateLimit: Sources/Asio/RateLimit.cpp, as a state machine driven by events.
--   Messageboard: Headers/Client/Messageboard.hpp, Sources/Client/Messageboard.cpp; it uses Vector.
--   Whiteboard: Headers/Client/Whiteboard.hpp, Sources/Client/Whiteboard.cpp; it uses Vector.
--   LicenseList: Sources/Modules/LicenseList.cpp.
--   PackageData: Sources/Modules/PackageData.cpp; it uses LicenseList, KeyValue and Vector. Its handlers
--     are in PackageData/Handlers.
--   OwnedGames: Sources/Modules/OwnedGames.cpp.
--   CardFarmer: Sources/Modules/CardFarmer.cpp; it asks OwnedGames, LicenseList and PackageData, and its
--     messages go to PlayGames. CardFarmer/Select has the selection, CardFarmer/Run the handlers.
--   Tests: runs on concrete values, and each theorem at a concrete value.
--
-- State: a module's members are a record, and what it writes to the whiteboard or sends is a field of
-- it. `RateLimitQueue` also keeps its acts, the latest first, which the code does not; no operation
-- reads them.
--
-- Fuel: the binary and the text deserializer and the loop over packets recur on fuel, one more than
-- the number of bytes, since each round takes at least one byte; that this is enough is proved. The
-- loop of `erase` has fuel for one round per item, as each round tests one. All else is structural.
--
-- Parameters, since they are not code of the repository: the protobuf library (`Wire.Protobuf`), the
-- socket (`Tcp.Socket`), OpenSSL and the CRC of Boost (`Ciphers.OpenSsl`), the gzip filter
-- (`MultiPacket.Client`), what a URL says of its host (`CookieJar.Url`), random bytes, and the clock,
-- whose readings are arguments. `MultiPacket.Client` also has the handlers that the modules add to the
-- connection module, which may be any.
--
-- Not modelled: fibers, threads and the mutexes, logging, JSON renderings, HTTP, files and the
-- user interface, which are input and output or calls of libraries; the order of the children of a
-- KeyValue node, which the code leaves to an unordered_map, is one that the map allows; the path of
-- cookies, which the code does not check either. The other modules have no model here.
--
-- An unordered_map is the list of its entries in one order that it allows (Base/Maps), and `std::sort`
-- is insertion sort (Base/Sort), one of its results where elements compare as equal.
pub mod Base
pub mod OwnedGames
pub mod LicenseList
pub mod PackageData
pub mod CardFarmer
pub mod KeyValue
pub mod Wire
pub mod Message
pub mod Tcp
pub mod Ciphers
pub mod Encrypted
pub mod MultiPacket
pub mod BitField
pub mod Vector
pub mod PlayGames
pub mod StringCompare
pub mod CookieJar
pub mod Html
pub mod AssetKey
pub mod HexString
pub mod RateLimit
pub mod Messageboard
pub mod Whiteboard
pub mod Tests
